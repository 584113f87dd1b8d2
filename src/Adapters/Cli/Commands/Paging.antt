-- ===== src/Adapters/Cli/Commands/Paging.antt =====
-- The command `list` asks for page after page, and ends where the pages end.
use vaultlet.Prelude.{
  ℕ, zero, suc, ◌≤◌, false, some, List, [], ◌∷◌, ◌++◌, append_assoc, append-nil, Bytes, bytes_eq,
  bytes_eq_iff, codes, length, ◌≡◌, ◌≢◌, sym, ap, ◌∙◌, arith,
}
use vaultlet.Integers.{ℤ}
use vaultlet.Errors.{ok}
use vaultlet.Adapters.Grpc.Handlers.{WireMeta, ListResponse}
use vaultlet.Adapters.Cli.Options.{Options, Host, Client, answered, call_timeout}
use vaultlet.Adapters.Cli.Render.{Format, to_meta_json}
use vaultlet.Adapters.Cli.Commands.{row, list_page, list_loop}

module _ {W : Type 0} (host : Host W) (f : Format) (o : Options) where
  -- The pages that a server gives out from a token on, from the world `w` to the world `u`. The
  -- last one has no token for another.
  pub data Pages (client : Client W) (ns : Bytes) (size : ℤ)
      : Bytes → W → List (List WireMeta) → W → Type 0 where
    last :
        (token : Bytes) (w u : W) (resp : ListResponse)
        → client.list_secrets
            (call_timeout o.timeout)
            (record { namespace = ns; page_size = size; page_token = token })
            w
          ≡ (answered resp, u)
        → resp.next_page_token ≡ []
        → Pages client ns size token w (resp.secrets ∷ []) u
    more :
        (token : Bytes) (w v u : W) (resp : ListResponse) (pages : List (List WireMeta))
        → client.list_secrets
            (call_timeout o.timeout)
            (record { namespace = ns; page_size = size; page_token = token })
            w
          ≡ (answered resp, v)
        → resp.next_page_token ≢ []
        → Pages client ns size resp.next_page_token v pages u
        → Pages client ns size token w (resp.secrets ∷ pages) u

  -- The lines of the table for a page, and for all pages.
  abbrev pub rows : List WireMeta → Bytes
  rows [] = []
  rows (meta ∷ metas) = row (to_meta_json f (some meta)) ++ rows metas

  abbrev pub all_rows : List (List WireMeta) → Bytes
  all_rows [] = []
  all_rows (page ∷ pages) = rows page ++ all_rows pages

  list_page-rows :
      (metas : List WireMeta) (table : Bytes) (w : W)
      → bytes_eq o.output (codes "json") ≡ false
      → list_page host f o metas table w ≡ (ok (table ++ rows metas), w)
  unfolding list_page
  list_page-rows [] table w h = ap (λ t. (ok t, w)) (sym (append-nil table))
  list_page-rows (meta ∷ metas) table w h =
      rw (h, list_page)
        (list_page-rows metas (table ++ row (to_meta_json f (some meta))) w h
          ∙ ap (λ t. (ok t, w))
              (append_assoc table (row (to_meta_json f (some meta))) (rows metas)))

  -- With fuel for every page, the loop of a text listing ends; its table is the rows of all the
  -- pages in their order, and its only effects are the calls that fetch them.
  pub list_loop-Pages :
      (fuel : ℕ) (client : Client W) (ns : Bytes) (size : ℤ) (token table : Bytes) (w u : W)
      (pages : List (List WireMeta))
      → bytes_eq o.output (codes "json") ≡ false
      → Pages client ns size token w pages u
      → length pages ≤ fuel
      → list_loop host f o fuel client ns size token table w
        ≡ (ok (some (table ++ all_rows pages)), u)
  unfolding list_loop
  list_loop-Pages zero client ns size token table w u pages h (last _ _ _ resp c e) enough =
      absurd (omega arith)
  list_loop-Pages zero client ns size token table w u pages h (more _ _ v _ resp ps c e rest)
        enough =
      absurd (omega arith)
  list_loop-Pages (suc fuel) client ns size token table w u pages h (last _ _ _ resp c e) enough =
      rw c (
        rw (list_page-rows resp.secrets table u h) (
          rw ((bytes_eq_iff resp.next_page_token []).1 e)
            (ap (λ t. (ok (some (table ++ t)), u)) (sym (append-nil (rows resp.secrets))))))
  list_loop-Pages (suc fuel) client ns size token table w u pages h (more _ _ v _ resp ps c e rest)
        enough =
      let inner : bytes_eq resp.next_page_token [] ≡ false =
        ground (arith, bytes_eq_iff resp.next_page_token []) in
      rw c (
        rw (list_page-rows resp.secrets table v h) (
          rw inner (
            list_loop-Pages fuel client ns size resp.next_page_token (table ++ rows resp.secrets) v
              u ps h rest (omega arith)
            ∙ ap (λ t. (ok (some t), u)) (append_assoc table (rows resp.secrets) (all_rows ps)))))
