-- ===== src/Main/NetworkForms/Passwords.antt =====
-- The passwords for the hotspot that dialogs.tsx lets through.
use Prim.Native.Char.{code}
use shareframe_board.Common.{
  ℕ, ◌+◌, ◌≤◌, ◌≡◌, refl, Bool, true, false, String, str_eq, ltb, if◌then◌else◌, arith,
}
use shareframe_board.Main.NetworkForms.{
  NetworkForms, utf16_length, matches_ap_pattern, can_submit_ap_password, submit_disabled,
  changing_ap,
}

-- The bytes of the text in UTF-8, which the board counts.
unfoldable pub utf8_length : String → ℕ
utf8_length String.[] = 0
utf8_length (String.◌∷◌ c s) =
    (if ltb (code c) 128
      then 1
      else if ltb (code c) 2048
      then 2
      else if ltb (code c) 65536
      then 3
      else 4)
    + utf8_length s

-- Every byte of the text is a printable character of ASCII.
abbrev pub ArePrintable : String → Type 0
ArePrintable String.[] = Unit
ArePrintable (String.◌∷◌ c s) = (32 ≤ code c) × (code c ≤ 126) × ArePrintable s

printable-lengths :
    (s : String) → matches_ap_pattern s ≡ true → (utf8_length s ≡ utf16_length s) × ArePrintable s
unfolding matches_ap_pattern utf8_length utf16_length
printable-lengths String.[] h = (refl, tt)
printable-lengths (String.◌∷◌ c s) h =
    let (e, a) = printable-lengths s (ground arith) in
    (ground arith, (ground arith, ground arith, a))

-- A password that the dialog submits has 8 to 63 bytes, all of them printable ASCII, and was typed
-- twice; nothing is submitted while the page is loading or the board out of reach.
pub submit_disabled-ArePrintable :
    (loading is_connected : Bool) (f : NetworkForms)
    → submit_disabled changing_ap loading is_connected f ≡ false
    → (8 ≤ utf8_length f.ap_password)
      × (utf8_length f.ap_password ≤ 63)
      × ArePrintable f.ap_password
      × (str_eq f.ap_password f.ap_password_confirm ≡ true)
      × (loading ≡ false)
      × (is_connected ≡ true)
unfolding submit_disabled can_submit_ap_password
submit_disabled-ArePrintable loading is_connected f h =
    let (e, a) = printable-lengths f.ap_password (ground arith) in
    (ground arith, ground arith, a, ground arith, ground arith, ground arith)
