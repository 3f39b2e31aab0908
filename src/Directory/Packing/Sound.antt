-- ===== src/Directory/Packing/Sound.antt =====
-- What `packDirectoryRows` gives.
use mathlib.Core.Path.{transport}
use incom_udon_server.Base.{
  ℕ, zero, suc, ◌≤◌, ◌≡◌, ◌≢◌, refl, ap, sym, ◌⊎◌, inl, inr, arith, Bool, ltb, ◌==◌, Option, List,
  [], ◌∷◌, length, Bool-cases,
}
use incom_udon_server.Directory.Packing.{
  PackError, too_many_fragments, out_of_fuel, Packed, failed, packed, concat, fill_groups, attempt,
  pack_directory_rows, directory_max_fragments,
}
use incom_udon_server.Directory.Packing.Groups.{AllFit, Whole, fill_groups-Whole}

Packed-cases :
    {Row : Type 0} (r : Packed Row)
    → ((e : PackError) × (r ≡ failed e)) ⊎ ((groups : List (List Row)) × (r ≡ packed groups))
Packed-cases (failed e) = inl (e, refl)
Packed-cases (packed groups) = inr (groups, refl)

module _ {Row : Type 0} (encode : ℕ → ℕ → List Row → Option (List ℕ))
    (fits : ℕ → ℕ → List ℕ → Bool) where
  abbrev Done : List Row → Packed Row → Type 0
  Done rows (failed e) = e ≢ out_of_fuel
  Done rows (packed groups) =
      (concat groups ≡ rows)
      × (AllFit encode fits 0 (length groups) groups × (length groups ≤ directory_max_fragments))

  along-Done : (rows : List Row) (r r' : Packed Row) → r' ≡ r → Done rows r → Done rows r'
  along-Done rows r r' same = transport (ap (Done rows) (sym same))

  attempt-Done : (n guess : ℕ) (rows : List Row) → Done rows (attempt encode fits n guess rows)
  unfolding attempt
  attempt-Done zero guess rows = λ e. cc
  attempt-Done (suc n) guess rows =
      let pass = fill_groups encode fits (length rows) guess [] rows in
      let result = attempt encode fits (suc n) guess rows in
      let whole : Whole encode fits guess rows pass =
        fill_groups-Whole encode fits (length rows) guess [] rows (omega arith) tt in
      elim (Packed-cases pass) [
        | inl (e, refused) ↦
            along-Done rows (failed e) result (ground (arith, refused))
              (transport (ap (Whole encode fits guess rows) refused) whole)
        | inr (groups, grouped) ↦
            let good = transport (ap (Whole encode fits guess rows) grouped) whole in
            elim (Bool-cases (ltb directory_max_fragments (length groups))) [
              | inl over ↦
                  along-Done rows (failed too_many_fragments) result (ground (arith, grouped, over))
                    (λ e. cc)
              | inr within ↦ elim (Bool-cases (length groups == guess)) [
                | inl guessed ↦
                    let count : guess ≡ length groups = ground (arith, guessed) in
                    along-Done rows (packed groups) result
                      (ground (arith, grouped, within, guessed))
                      (
                        good.0,
                        (
                          transport (ap (λ k. AllFit encode fits 0 k groups) count) good.1,
                          ground (arith, within),
                        ),
                      )
                | inr other ↦
                    along-Done rows (attempt encode fits n (length groups) rows) result
                      (ground (arith, grouped, within, other)) (attempt-Done n (length groups) rows)
              ]
            ]
      ]

-- The rows that are packed are all the rows, each once and in their order; there are 32 groups at most,
-- and each was encoded and fits as what it is sent as: at its own index, out of the number of groups
-- that there are.
pub pack_directory_rows_whole :
    {Row : Type 0} (encode : ℕ → ℕ → List Row → Option (List ℕ)) (fits : ℕ → ℕ → List ℕ → Bool)
    (row : Row) (rows : List Row) (groups : List (List Row))
    → pack_directory_rows encode fits (row ∷ rows) ≡ packed groups
    → (concat groups ≡ row ∷ rows)
      × (AllFit encode fits 0 (length groups) groups × (length groups ≤ directory_max_fragments))
unfolding pack_directory_rows
pack_directory_rows_whole encode fits row rows groups h =
    transport (ap (Done encode fits (row ∷ rows)) h) (attempt-Done encode fits 6 1 (row ∷ rows))

-- The loops come to an end: however rows are encoded and whatever fits, the number of rows is enough
-- fuel for every pass.
pub pack_directory_rows_terminates :
    {Row : Type 0} (encode : ℕ → ℕ → List Row → Option (List ℕ)) (fits : ℕ → ℕ → List ℕ → Bool)
    (rows : List Row)
    → pack_directory_rows encode fits rows ≢ failed out_of_fuel
unfolding pack_directory_rows
pack_directory_rows_terminates encode fits [] = λ e. cc
pack_directory_rows_terminates encode fits (row ∷ rows) = λ h.
    transport (ap (Done encode fits (row ∷ rows)) h) (attempt-Done encode fits 6 1 (row ∷ rows))
      refl
