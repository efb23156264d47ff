-- ===== src/QrCodeHelper/Modules.antt =====
-- Which modules the picture of frontend/Premiumbank/QrCodeHelper.cpp shows.
use mathlib.Core.List.{Memᴰ}
use mathlib.Core.List.Memᴰ
use concurrent_banking_syste.Prelude.{
  ℕ, zero, suc, ◌+◌, ◌<◌, ◌≤◌, ◌≡◌, ◌↔◌, inl, inr, refl, true, Bool-cases, [], ◌∷◌, arith,
  ℕ_discrete,
}
use concurrent_banking_syste.QrCodeHelper.{QrLibrary, Piece, dark, foot, columns, rows, svg}

module _ (qr_library : QrLibrary) where
  open qr_library use {QrCode, get_size, get_module}

  module _ (qr : QrCode) where
    -- A module of the columns from `x` on, of which there are `n`, in the row `y`.
    abbrev pub Column : ℕ → ℕ → ℕ → Piece → Type 0
    Column y n x t =
        (i : ℕ) × (x ≤ i) × (i < x + n) × (get_module qr i y ≡ true) × (t ≡ dark (i + 4) (y + 4))

    Column-later : (y n x : ℕ) (t : Piece) → Column y n (suc x) t → Column y (suc n) x t
    Column-later y n x t (i, low, high, on, eq) = (i, omega arith, omega arith, on, eq)

    columns-Column : (y n x : ℕ) (t : Piece) → Memᴰ t (columns qr_library qr y n x) → Column y n x t
    unfolding columns
    columns-Column y zero x t m = absurd (Memᴰ.not-nil m)
    columns-Column y (suc n) x t m = elim (Bool-cases (get_module qr x y)) [
      | inr off ↦ Column-later y n x t (columns-Column y n (suc x) t (rw off at m))
      | inl on ↦ elim (Memᴰ.cases_cons (rw on at m)) [
        | inl here ↦ (x, omega arith, omega arith, on, here)
        | inr there ↦ Column-later y n x t (columns-Column y n (suc x) t there)
      ]
    ]

    columns_complete :
        (y n x i : ℕ)
        → x ≤ i
        → i < x + n
        → get_module qr i y ≡ true
        → Memᴰ (dark (i + 4) (y + 4)) (columns qr_library qr y n x)
    unfolding columns
    columns_complete y zero x i low high on = absurd (omega arith)
    columns_complete y (suc n) x i low high on = elim (ℕ_discrete x i) [
      | yes same ↦ rw (same, on) (Memᴰ.head refl)
      | no other ↦
          let later = columns_complete y n (suc x) i (omega arith) (omega arith) on in
          elim (Bool-cases (get_module qr x y)) [
            | inl here ↦ rw here (Memᴰ.tail later)
            | inr off ↦ rw off later
          ]
    ]

    -- A dark module of the code, in the rows from `y` on, of which there are `n`.
    abbrev pub Dark : ℕ → ℕ → Piece → Type 0
    Dark n y t =
        (i : ℕ) × (j : ℕ) × (i < get_size qr)
        × (y ≤ j)
        × (j < y + n)
        × (get_module qr i j ≡ true)
        × (t ≡ dark (i + 4) (j + 4))

    rows-Dark : (n y : ℕ) (t : Piece) → Memᴰ t (rows qr_library qr n y) → Dark n y t
    unfolding rows
    rows-Dark zero y t m = absurd (Memᴰ.not-nil m)
    rows-Dark (suc n) y t m = elim (Memᴰ.append_cases (columns qr_library qr y (get_size qr) 0) m) [
      | inl here ↦
          let (i, low, high, on, eq) = columns-Column y (get_size qr) 0 t here in
          (i, y, omega arith, omega arith, omega arith, on, eq)
      | inr there ↦
          let (i, j, wide, low, high, on, eq) = rows-Dark n (suc y) t there in
          (i, j, wide, omega arith, omega arith, on, eq)
    ]

    rows_complete :
        (n y i j : ℕ)
        → i < get_size qr
        → y ≤ j
        → j < y + n
        → get_module qr i j ≡ true
        → Memᴰ (dark (i + 4) (j + 4)) (rows qr_library qr n y)
    unfolding rows
    rows_complete zero y i j wide low high on = absurd (omega arith)
    rows_complete (suc n) y i j wide low high on = elim (ℕ_discrete y j) [
      | yes same ↦
          let here = columns_complete j (get_size qr) 0 i (omega arith) (omega arith) on in
          rw same (Memᴰ.append_left (rows qr_library qr n (suc j)) here)
      | no other ↦
          Memᴰ.append_right (columns qr_library qr y (get_size qr) 0)
            (rows_complete n (suc y) i j wide (omega arith) (omega arith) on)
    ]

    -- The picture of a code, with any generator: there is a dark square at a place exactly where
    -- the code has a dark module four squares further up and to the left, so that the border of
    -- four squares on each side stays white.
    pub svg_iff :
        (x y : ℕ)
        → Memᴰ (dark x y) (svg qr_library qr) ↔ (
            (i : ℕ) × (j : ℕ) × (i < get_size qr)
            × (j < get_size qr)
            × (get_module qr i j ≡ true)
            × (x ≡ i + 4)
            × (y ≡ j + 4))
    unfolding svg
    svg_iff x y = (
      λ m. elim (Memᴰ.cases_cons m) [
        | inl opens ↦ absurd (cc)
        | inr rest ↦ elim (Memᴰ.append_cases (rows qr_library qr (get_size qr) 0) rest) [
          | inl inside ↦
              let (i, j, wide, _, tall, on, eq) = rows-Dark (get_size qr) 0 (dark x y) inside in
              (i, j, wide, omega arith, on, cc, cc)
          | inr ends ↦ elim (Memᴰ.cases_cons ends) [
            | inl closes ↦ absurd (cc)
            | inr nothing ↦ absurd (Memᴰ.not-nil nothing)
          ]
        ]
      ],
      λ (i, j, wide, tall, on, ex, ey).
          rw (ex, ey)
            (Memᴰ.tail (
              Memᴰ.append_left (foot ∷ [])
                (rows_complete (get_size qr) 0 i j wide (omega arith) (omega arith) on))),
    )
