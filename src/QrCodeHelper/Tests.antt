-- ===== src/QrCodeHelper/Tests.antt =====
-- A code of two by two modules, whose diagonal is dark.
use mathlib.Core.List.{Memᴰ}
use concurrent_banking_syste.Prelude.{◌+◌, ◌<◌, ◌≡◌, ◌↔◌, ℕ, ◌==◌, true}
use concurrent_banking_syste.QrCodeHelper.{QrLibrary, dark, svg}
use concurrent_banking_syste.QrCodeHelper.Modules.{svg_iff}

abbrev diagonal : QrLibrary
diagonal = record {
  QrCode = Unit {0};
  encode_text = λ text. tt;
  get_size = λ qr. 2;
  get_module = λ qr x y. x == y;
  number = λ i. "";
  data_url = λ pieces. "";
}

svg_iff_example :
    Memᴰ (dark 5 5) (svg diagonal tt)
    ↔ ((i : ℕ) × (j : ℕ) × (i < 2) × (j < 2) × ((i == j) ≡ true) × (5 ≡ i + 4) × (5 ≡ j + 4))
svg_iff_example = svg_iff diagonal tt 5 5
