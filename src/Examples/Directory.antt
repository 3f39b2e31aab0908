-- ===== src/Examples/Directory.antt =====
-- Runs of the directory.
use incom_udon_server.Base.{
  ℕ, arith, ◌+◌, ◌≡◌, ◌≢◌, ◌≤◌, refl, List, [], ◌∷◌, Bool, Option, some, leb, length, All,
}
use incom_udon_server.Directory.Replay.{accepted, fresh, accepted-admitted}
use incom_udon_server.Replay.Runs.{admitted}
use incom_udon_server.Directory.Packing.{
  failed, out_of_fuel, pack_directory_rows, attempt, fill_groups, fill, concat,
  directory_max_fragments,
}
use incom_udon_server.Directory.Packing.Groups.{AllFit}
use incom_udon_server.Directory.Packing.Sound.{
  pack_directory_rows_whole, pack_directory_rows_terminates,
}
use incom_udon_server.Directory.Budget.{granted, response_limit, granted_bounded}
use incom_udon_server.Directory.Pages.{
  split_directory_snapshot_pages, IsPage, split_directory_snapshot_pages_whole,
}

accepted-admitted_example :
    accepted fresh (9 ∷ (7 ∷ (9 ∷ (80 ∷ (7 ∷ [])))))
    ≡ 9 ∷ admitted (record { highest = 9; seen = 1 }) (7 ∷ (9 ∷ (80 ∷ (7 ∷ []))))
accepted-admitted_example = accepted-admitted 9 (7 ∷ (9 ∷ (80 ∷ (7 ∷ []))))

-- A row is a number of bytes, and a datagram has room for two rows.
abbrev encode_row : ℕ → ℕ → List ℕ → Option (List ℕ)
encode_row index count group = some group

abbrev fits_two : ℕ → ℕ → List ℕ → Bool
fits_two index count payload = leb (length payload) 2

abbrev three_rows : List ℕ
three_rows = 4 ∷ (5 ∷ (6 ∷ []))

abbrev two_groups : List (List ℕ)
two_groups = (4 ∷ (5 ∷ [])) ∷ ((6 ∷ []) ∷ [])

pack_directory_rows_whole_example :
    (concat two_groups ≡ three_rows)
    × (AllFit encode_row fits_two 0 2 two_groups × (2 ≤ directory_max_fragments))
unfolding pack_directory_rows attempt fill_groups fill
pack_directory_rows_whole_example =
    pack_directory_rows_whole encode_row fits_two 4 (5 ∷ (6 ∷ [])) two_groups refl

pack_directory_rows_terminates_example :
    pack_directory_rows encode_row fits_two three_rows ≢ failed out_of_fuel
pack_directory_rows_terminates_example =
    pack_directory_rows_terminates encode_row fits_two three_rows

split_directory_snapshot_pages_whole_example :
    (concat (split_directory_snapshot_pages three_rows) ≡ three_rows)
    × All IsPage (split_directory_snapshot_pages three_rows)
split_directory_snapshot_pages_whole_example = split_directory_snapshot_pages_whole three_rows

-- The second call is over the budget of its window, and the third begins a new one.
abbrev calls : List (ℕ × ℕ)
calls = (20, 5000000001) ∷ ((50, 5000000002) ∷ ((60, 5500000000) ∷ []))

granted_bounded_example :
    granted (record { window = 4500000000; count = 40 }) calls + 40
    ≤ response_limit + response_limit
granted_bounded_example =
    granted_bounded (record { window = 4500000000; count = 40 }) 5000000001 calls (omega arith)
      (omega arith)
      ((omega arith, omega arith), ((omega arith, omega arith), ((omega arith, omega arith), tt)))
