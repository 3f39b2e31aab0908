-- ===== src/Directory/Packing.antt =====
-- `packDirectoryRows` of directory_v3.go: the rows of a response, packed into as few datagrams as the
-- greedy rule gives. How rows are encoded and which datagram fits are arguments, as in the code; both
-- depend on the index of the datagram and on the number of datagrams, which is guessed and then
-- corrected, six times at most.
use mathlib.Core.List.{append_assoc, append-nil}
use mathlib.Core.Path.{transport}
use incom_udon_server.Base.{
  ℕ, zero, suc, ◌+◌, ◌<◌, ◌≤◌, ◌≡◌, ◌≢◌, refl, ap, sym, ◌∙◌, ◌⊎◌, inl, inr, arith, Bool, true,
  false, not, ltb, ◌==◌, if◌then◌else◌, Option, none, some, List, [], ◌∷◌, ◌++◌, length,
  length-append, Option-cases, Bool-cases,
}
pub mod Groups
pub mod Sound

pub data PackError : Type 0 where
  encode_failed record_too_large too_many_fragments unstable out_of_fuel : PackError

pub data Packed (Row : Type 0) : Type 0 where
  failed : PackError → Packed Row
  packed : List (List Row) → Packed Row

pub data Filled (Row : Type 0) : Type 0 where
  bad : PackError → Filled Row
  filled : List Row → List Row → Filled Row

abbrev pub directory_max_fragments : ℕ
directory_max_fragments = 32

abbrev pub concat {ℓ} : {A : Type ℓ} → List (List A) → List A
concat [] = []
concat (xs ∷ xss) = xs ++ concat xss

module _ {Row : Type 0} (encode : ℕ → ℕ → List Row → Option (List ℕ))
    (fits : ℕ → ℕ → List ℕ → Bool) where
  -- The inner loop: rows go into the group while it fits. It gives the group and the rows that are
  -- left.
  unfoldable pub fill : ℕ → ℕ → List Row → List Row → Filled Row
  fill index guess group [] = filled group []
  fill index guess group (row ∷ rest) = elim (encode index guess (group ++ (row ∷ []))) [
    | none ↦ bad encode_failed
    | some payload ↦ elim (fits index guess payload) [
      | false ↦ if length group == 0 then bad record_too_large else filled group (row ∷ rest)
      | true ↦ fill index guess (group ++ (row ∷ [])) rest
    ]
  ]

  -- The loop over the groups; the fuel is the number of rows.
  unfoldable pub fill_groups : ℕ → ℕ → List (List Row) → List Row → Packed Row
  fill_groups fuel guess groups [] = packed groups
  fill_groups zero guess groups (row ∷ rest) = failed out_of_fuel
  fill_groups (suc fuel) guess groups (row ∷ rest) =
      elim (fill (length groups) guess [] (row ∷ rest)) [
        | bad e ↦ failed e
        | filled group left ↦ fill_groups fuel guess (groups ++ (group ∷ [])) left
      ]

  unfoldable pub attempt : ℕ → ℕ → List Row → Packed Row
  attempt zero guess rows = failed unstable
  attempt (suc n) guess rows = elim (fill_groups (length rows) guess [] rows) [
    | failed e ↦ failed e
    | packed groups ↦ elim (ltb directory_max_fragments (length groups)) [
      | true ↦ failed too_many_fragments
      | false ↦ elim (length groups == guess) [
        | true ↦ packed groups
        | false ↦ attempt n (length groups) rows
      ]
    ]
  ]

  unfoldable pub pack_directory_rows : List Row → Packed Row
  pack_directory_rows [] = packed ([] ∷ [])
  pack_directory_rows (row ∷ rows) = attempt 6 1 (row ∷ rows)
