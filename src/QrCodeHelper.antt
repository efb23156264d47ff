-- ===== src/QrCodeHelper.antt =====
-- `QrCodeHelper` of frontend/Premiumbank/QrCodeHelper.cpp. The code generator of
-- frontend/Premiumbank/qrcodegen.cpp, which is a third-party library, and Qt are an interface.
pub mod Modules
mod Tests
use concurrent_banking_syste.Prelude.{
  ℕ, zero, suc, ◌+◌, ◌*◌, Bool, String, List, [], ◌∷◌, ◌++◌, if◌then◌else◌,
}
use concurrent_banking_syste.Prelude.Int.{ℤ, pos, leb_ℤ}

-- What is written to `svg` at once: the head with the view box and the white background, one dark
-- module, or the end.
pub data Piece : Type 0 where
  head : ℕ → Piece
  dark : ℕ → ℕ → Piece
  foot : Piece

pub record QrLibrary : Type 1 where
  pub QrCode : Type 0
  -- `QrCode::encodeText`, with medium error correction.
  pub encode_text : String → QrCode
  pub get_size : QrCode → ℕ
  pub get_module : QrCode → ℕ → ℕ → Bool
  -- `QString::number`, and the stream's text of the pieces as a percent-encoded data URL.
  pub number : ℤ → String
  pub data_url : List Piece → String

abbrev pub border : ℕ
border = 4

module _ (qr_library : QrLibrary) where
  open qr_library use {QrCode, encode_text, get_size, get_module, number, data_url}

  unfoldable pub payload_for_account_id : ℤ → String
  payload_for_account_id account_id = number account_id

  -- `for (int x = ...; x < size; x++)`, with `n` columns still to go.
  unfoldable pub columns : QrCode → ℕ → ℕ → ℕ → List Piece
  columns qr y zero x = []
  columns qr y (suc n) x =
      let rest = columns qr y n (suc x) in
      if get_module qr x y then dark (x + border) (y + border) ∷ rest else rest

  -- `for (int y = ...; y < size; y++)`, with `n` rows still to go.
  unfoldable pub rows : QrCode → ℕ → ℕ → List Piece
  unfolding columns
  rows qr zero y = []
  rows qr (suc n) y = columns qr y (get_size qr) 0 ++ rows qr n (suc y)

  unfoldable pub svg : QrCode → List Piece
  unfolding rows
  svg qr = head (get_size qr + border * 2) ∷ rows qr (get_size qr) 0 ++ foot ∷ []

  -- The empty text, for which the caller shows a placeholder, where there is no account.
  unfoldable pub account_qr_data_url : ℤ → String
  unfolding payload_for_account_id svg
  account_qr_data_url account_id =
      if leb_ℤ account_id (pos 0)
      then ""
      else data_url (svg (encode_text (payload_for_account_id account_id)))
