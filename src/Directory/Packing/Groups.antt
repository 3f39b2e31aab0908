-- ===== src/Directory/Packing/Groups.antt =====
-- The groups of one pass: they are the rows, and each fits.
use mathlib.Core.List.{append_assoc, append-nil}
use mathlib.Core.Path.{transport}
use incom_udon_server.Base.{
  ℕ, zero, suc, ◌+◌, ◌<◌, ◌≤◌, ◌≡◌, ◌≢◌, refl, ap, sym, ◌∙◌, ◌⊎◌, inl, inr, arith, Bool, true,
  false, ◌==◌, Option, some, List, [], ◌∷◌, ◌++◌, length, length-append, Option-cases, Bool-cases,
}
use incom_udon_server.Directory.Packing.{
  PackError, encode_failed, record_too_large, out_of_fuel, Packed, failed, packed, Filled, bad,
  filled, concat, fill, fill_groups,
}

module _ {Row : Type 0} (encode : ℕ → ℕ → List Row → Option (List ℕ))
    (fits : ℕ → ℕ → List ℕ → Bool) where
  -- A group that has rows and fits.
  pub record Fits (index guess : ℕ) (group : List Row) : Type 0 where
    pub nonempty : 0 < length group
    pub payload : List ℕ
    pub encodes : encode index guess group ≡ some payload
    pub fitting : fits index guess payload ≡ true

  abbrev Good : ℕ → ℕ → List Row → Filled Row → Type 0
  Good index guess whole (bad e) = e ≢ out_of_fuel
  Good index guess whole (filled group left) =
      (group ++ left ≡ whole) × (Fits index guess group × (length left < length whole))

  along-Good :
      (index guess : ℕ) (whole : List Row) (r r' : Filled Row)
      → r' ≡ r
      → Good index guess whole r
      → Good index guess whole r'
  along-Good index guess whole r r' same = transport (ap (Good index guess whole) (sym same))

  fill-Good :
      (index guess : ℕ) (group rest : List Row)
      → Fits index guess group
      → Good index guess (group ++ rest) (fill encode fits index guess group rest)
  unfolding fill
  fill-Good index guess group [] f = (refl, (f, omega (arith, length-append group [], f.nonempty)))
  fill-Good index guess group (row ∷ rest) f =
      let next = group ++ (row ∷ []) in
      let whole = group ++ (row ∷ rest) in
      let result = fill encode fits index guess group (row ∷ rest) in
      elim (Option-cases (encode index guess next)) [
        | inl refused ↦
            along-Good index guess whole (bad encode_failed) result (ground (arith, refused))
              (λ e. cc)
        | inr (payload, coded) ↦ elim (Bool-cases (fits index guess payload)) [
          | inl fitting ↦
              let more : Fits index guess next = record {
                nonempty = omega (arith, length-append group (row ∷ []));
                payload = payload;
                encodes = coded;
                fitting = fitting;
              } in
              along-Good index guess whole (fill encode fits index guess next rest) result
                (ground (arith, coded, fitting))
                (transport
                  (ap (λ w. Good index guess w (fill encode fits index guess next rest))
                    (append_assoc group (row ∷ []) rest))
                  (fill-Good index guess next rest more))
          | inr over ↦
              let begun : (length group == 0) ≡ false = ground (arith, f.nonempty) in
              along-Good index guess whole (filled group (row ∷ rest)) result
                (ground (arith, coded, over, begun))
                (refl, (f, omega (arith, length-append group (row ∷ rest), f.nonempty)))
        ]
      ]

  first-Good :
      (index guess : ℕ) (row : Row) (rest : List Row)
      → Good index guess (row ∷ rest) (fill encode fits index guess [] (row ∷ rest))
  unfolding fill
  first-Good index guess row rest =
      let result = fill encode fits index guess [] (row ∷ rest) in
      elim (Option-cases (encode index guess (row ∷ []))) [
        | inl refused ↦
            along-Good index guess (row ∷ rest) (bad encode_failed) result (ground (arith, refused))
              (λ e. cc)
        | inr (payload, coded) ↦ elim (Bool-cases (fits index guess payload)) [
          | inl fitting ↦
              along-Good index guess (row ∷ rest) (fill encode fits index guess (row ∷ []) rest)
                result (ground (arith, coded, fitting))
                (fill-Good index guess (row ∷ []) rest (record {
                  nonempty = omega arith;
                  payload = payload;
                  encodes = coded;
                  fitting = fitting;
                }))
          | inr over ↦
              along-Good index guess (row ∷ rest) (bad record_too_large) result
                (ground (arith, coded, over)) (λ e. cc)
        ]
      ]

  -- Each group fits at its own index.
  abbrev pub AllFit : ℕ → ℕ → List (List Row) → Type 0
  AllFit index guess [] = Unit
  AllFit index guess (group ∷ groups) = Fits index guess group × AllFit (suc index) guess groups

  AllFit-append :
      (index guess : ℕ) (groups : List (List Row)) (group : List Row)
      → AllFit index guess groups
      → Fits (length groups + index) guess group
      → AllFit index guess (groups ++ (group ∷ []))
  AllFit-append index guess [] group all f =
      let place : 0 + index ≡ index = omega arith in
      (transport (ap (λ n. Fits n guess group) place) f, tt)
  AllFit-append index guess (g ∷ groups) group all f =
      let place : suc (length groups) + index ≡ length groups + suc index = omega arith in
      (
        all.0,
        AllFit-append (suc index) guess groups group all.1
            (transport (ap (λ n. Fits n guess group) place) f),
      )

  concat-append :
      (groups : List (List Row)) (group : List Row)
      → concat (groups ++ (group ∷ [])) ≡ concat groups ++ group
  concat-append [] group = append-nil group
  concat-append (g ∷ groups) group =
      ap (◌++◌ g) (concat-append groups group) ∙ sym (append_assoc g (concat groups) group)

  abbrev pub Whole : ℕ → List Row → Packed Row → Type 0
  Whole guess rows (failed e) = e ≢ out_of_fuel
  Whole guess rows (packed groups) = (concat groups ≡ rows) × AllFit 0 guess groups

  along-Whole :
      (guess : ℕ) (rows : List Row) (r r' : Packed Row)
      → r' ≡ r
      → Whole guess rows r
      → Whole guess rows r'
  along-Whole guess rows r r' same = transport (ap (Whole guess rows) (sym same))

  Filled-cases :
      (r : Filled Row)
      → ((e : PackError) × (r ≡ bad e))
        ⊎ ((group : List Row) × ((left : List Row) × (r ≡ filled group left)))
  Filled-cases (bad e) = inl (e, refl)
  Filled-cases (filled group left) = inr (group, (left, refl))

  -- With as much fuel as rows the loop comes to its end, and its groups are the rows.
  pub fill_groups-Whole :
      (fuel guess : ℕ) (groups : List (List Row)) (rows : List Row)
      → length rows ≤ fuel
      → AllFit 0 guess groups
      → Whole guess (concat groups ++ rows) (fill_groups encode fits fuel guess groups rows)
  unfolding fill_groups
  fill_groups-Whole fuel guess groups [] enough all = (sym (append-nil (concat groups)), all)
  fill_groups-Whole zero guess groups (row ∷ rest) enough all = absurd (omega (arith, enough))
  fill_groups-Whole (suc fuel) guess groups (row ∷ rest) enough all =
      let start = fill encode fits (length groups) guess [] (row ∷ rest) in
      let result = fill_groups encode fits (suc fuel) guess groups (row ∷ rest) in
      let good = first-Good (length groups) guess row rest in
      let whole = concat groups ++ (row ∷ rest) in
      elim (Filled-cases start) [
        | inl (e, refused) ↦
            along-Whole guess whole (failed e) result (ground (arith, refused))
              (transport (ap (Good (length groups) guess (row ∷ rest)) refused) good)
        | inr (group, (left, grouped)) ↦
            let place : length groups ≡ length groups + 0 = omega arith in
            let fits_here = transport (ap (Good (length groups) guess (row ∷ rest)) grouped) good in
            along-Whole guess whole
              (fill_groups encode fits fuel guess (groups ++ (group ∷ [])) left) result
              (ground (arith, grouped))
              (transport
                (ap
                  (λ w.
                    Whole guess w
                      (fill_groups encode fits fuel guess (groups ++ (group ∷ [])) left))
                  (ap (λ xs. xs ++ left) (concat-append groups group)
                    ∙ (append_assoc (concat groups) group left
                        ∙ ap (◌++◌ (concat groups)) fits_here.0)))
                (fill_groups-Whole fuel guess (groups ++ (group ∷ [])) left
                  (omega (arith, enough, fits_here.1.1))
                  (AllFit-append 0 guess groups group all
                    (transport (ap (λ n. Fits n guess group) place) fits_here.1.0))))
      ]
