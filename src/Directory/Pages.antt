-- ===== src/Directory/Pages.antt =====
-- `splitDirectorySnapshotPages` of directory_v3.go: the speakers of a channel in pages. A page is sent
-- in as many datagrams as a response may have, less one for the channel itself.
use incom_udon_server.Base.{
  ℕ, zero, suc, ◌*◌, ◌≤◌, ◌≡◌, refl, ap, ◌∙◌, arith, List, [], ◌∷◌, ◌++◌, length, take, drop,
  length-take, length-drop, take-append-drop, All,
}
use incom_udon_server.Directory.Packing.{concat, directory_max_fragments}

abbrev pub page_speaker_limit : ℕ
page_speaker_limit = 31

module _ {Row : Type 0} where
  -- The loop over the rows; the fuel is their number.
  unfoldable pub split_pages : ℕ → List Row → List (List Row)
  split_pages fuel [] = []
  split_pages zero (row ∷ rows) = []
  split_pages (suc fuel) (row ∷ rows) =
      take page_speaker_limit (row ∷ rows) ∷ split_pages fuel (drop page_speaker_limit (row ∷ rows))

  unfoldable pub split_directory_snapshot_pages : List Row → List (List Row)
  split_directory_snapshot_pages [] = [] ∷ []
  split_directory_snapshot_pages (row ∷ rows) = split_pages (length (row ∷ rows)) (row ∷ rows)

  -- A page that is sent with its channel row.
  abbrev pub IsPage : List Row → Type 0
  IsPage page = suc (length page) ≤ directory_max_fragments

  split_pages-exact :
      (fuel : ℕ) (rows : List Row)
      → length rows ≤ fuel
      → (concat (split_pages fuel rows) ≡ rows)
        × (All IsPage (split_pages fuel rows)
            × (length rows ≤ length (split_pages fuel rows) * page_speaker_limit))
  unfolding split_pages
  split_pages-exact fuel [] enough = (refl, (tt, omega arith))
  split_pages-exact zero (row ∷ rows) enough = absurd (omega (arith, enough))
  split_pages-exact (suc fuel) (row ∷ rows) enough =
      let whole = row ∷ rows in
      let left = drop page_speaker_limit whole in
      let rest =
        split_pages-exact fuel left (omega (arith, enough, length-drop page_speaker_limit whole)) in
      (
        ap (◌++◌ (take page_speaker_limit whole)) rest.0
            ∙ take-append-drop page_speaker_limit whole,
        (
          (omega (arith, length-take page_speaker_limit whole), rest.1.0),
          omega (arith, rest.1.1, length-drop page_speaker_limit whole),
        ),
      )

-- The pages hold all the speakers, each once and in their order, and each page with its channel row
-- is within the datagrams of one response.
pub split_directory_snapshot_pages_whole :
    {Row : Type 0} (rows : List Row)
    → (concat (split_directory_snapshot_pages rows) ≡ rows)
      × All IsPage (split_directory_snapshot_pages rows)
unfolding split_directory_snapshot_pages
split_directory_snapshot_pages_whole [] = (refl, (omega arith, tt))
split_directory_snapshot_pages_whole (row ∷ rows) =
    let exact = split_pages-exact (length (row ∷ rows)) (row ∷ rows) (omega arith) in
    (exact.0, exact.1.0)
