-- ===== src/Msc/Descriptors.antt =====
-- The descriptors of bootloader/drivers/usb/usb_msc.c that name the device.
use stm32mp257_test_board.Prelude.{
  ℕ, zero, suc, ◌+◌, ◌*◌, ◌%◌, ◌^◌, ◌≤◌, ◌<◌, List, [], ◌∷◌, ◌++◌, true, false, not, ◌||◌, length,
  length-set, take, drop, set, min, ltb, ◌==◌, ◌≡◌, refl, sym, ap, ◌∙◌, arith, append_assoc,
  append-nil,
}
use stm32mp257_test_board.Cmd.Shell.{cstr}
use stm32mp257_test_board.Msc.State.{ep_in, ep_out}
use stm32mp257_test_board.Cstring.Copy.{IsText}

-- `USB_DESC_TYPE_STRING` of the USB core.
abbrev usb_desc_type_string : ℕ
usb_desc_type_string = 3

-- The tables, with the USB core's constants for lengths, types and string indices.
abbrev msc_device_desc : List ℕ
msc_device_desc =
    18 ∷ 0x01 ∷ 0x00 ∷ 0x02 ∷ 0x00 ∷ 0x00 ∷ 0x00 ∷ 64 ∷ 0x83 ∷ 0x04 ∷ 0x20 ∷ 0x57 ∷ 0x00 ∷ 0x02 ∷ 1
    ∷ 2 ∷ 3 ∷ 1 ∷ []

abbrev msc_config_desc : List ℕ
msc_config_desc =
    0x09 ∷ 0x02 ∷ 32 ∷ 0x00 ∷ 0x01 ∷ 0x01 ∷ 0x00 ∷ 0xC0 ∷ 0x32 ∷ 0x09 ∷ 0x04 ∷ 0x00 ∷ 0x00 ∷ 0x02
    ∷ 0x08 ∷ 0x06 ∷ 0x50 ∷ 0x00 ∷ 0x07 ∷ 0x05 ∷ ep_in ∷ 0x02 ∷ 0x00 ∷ 0x02 ∷ 0x00 ∷ 0x07 ∷ 0x05
    ∷ ep_out ∷ 0x02 ∷ 0x00 ∷ 0x02 ∷ 0x00 ∷ []

abbrev msc_lang_id_desc : List ℕ
msc_lang_id_desc = 4 ∷ 0x03 ∷ 0x09 ∷ 0x04 ∷ []

abbrev msc_qualifier_desc : List ℕ
msc_qualifier_desc = 10 ∷ 0x06 ∷ 0x00 ∷ 0x02 ∷ 0x00 ∷ 0x00 ∷ 0x00 ∷ 0x40 ∷ 0x01 ∷ 0x00 ∷ []

abbrev pub msc_get_device_desc : ℕ × List ℕ
msc_get_device_desc = (18, msc_device_desc)

abbrev pub msc_get_lang_id_desc : ℕ × List ℕ
msc_get_lang_id_desc = (4, msc_lang_id_desc)

abbrev pub msc_get_config_desc : ℕ × List ℕ
msc_get_config_desc = (32, msc_config_desc)

abbrev pub msc_get_qualifier_desc : ℕ × List ℕ
msc_get_qualifier_desc = (10, msc_qualifier_desc)

-- The loop of `msc_string_desc` over the rest of the text; `str_desc_buf` has 64 bytes.
unfoldable pub string_loop : List ℕ → ℕ → List ℕ → ℕ × List ℕ
string_loop [] n buf = (n, buf)
string_loop (c ∷ cs) n buf = elim (c == 0 || not (ltb n 62)) [
  | true ↦ (n, buf)
  | false ↦ string_loop cs (suc (suc n)) (set (set buf n c) (suc n) 0)
]

-- The length and the buffer.
unfoldable pub msc_string_desc : List ℕ → List ℕ → ℕ × List ℕ
unfolding string_loop
msc_string_desc ascii buf =
    let (n, out) = string_loop ascii 2 buf in
    (n % 2 ^ 16, set (set out 0 (n % 2 ^ 8)) 1 usb_desc_type_string)

unfoldable pub msc_get_mfc_desc : List ℕ → ℕ × List ℕ
msc_get_mfc_desc buf = msc_string_desc (cstr "STMicroelectronics") buf

unfoldable pub msc_get_product_desc : List ℕ → ℕ × List ℕ
msc_get_product_desc buf = msc_string_desc (cstr "MP257 FSBL SD card") buf

unfoldable pub msc_get_serial_desc : List ℕ → ℕ × List ℕ
msc_get_serial_desc buf = msc_string_desc (cstr "002600224C42501400313951") buf

unfoldable pub msc_get_configuration_desc : List ℕ → ℕ × List ℕ
msc_get_configuration_desc buf = msc_string_desc (cstr "MSC Config") buf

unfoldable pub msc_get_interface_desc : List ℕ → ℕ × List ℕ
msc_get_interface_desc buf = msc_string_desc (cstr "MSC Interface") buf

unfoldable pub msc_get_usr_desc : ℕ → List ℕ → ℕ × List ℕ
msc_get_usr_desc index buf = msc_string_desc (cstr "MSC") buf

-- UTF-16LE of ASCII.
abbrev pub utf16 : List ℕ → List ℕ
utf16 [] = []
utf16 (c ∷ cs) = c ∷ 0 ∷ utf16 cs

take-set :
    (xs : List ℕ) (n c : ℕ)
    → suc (suc n) ≤ length xs
    → take (suc (suc n)) (set (set xs n c) (suc n) 0) ≡ take n xs ++ c ∷ 0 ∷ []
take-set [] n c h = absurd (omega arith)
take-set (x ∷ []) n c h = absurd (omega arith)
take-set (x ∷ y ∷ xs) zero c h = refl
take-set (x ∷ y ∷ xs) (suc n) c h = ap (λ r. x ∷ r) (take-set (y ∷ xs) n c (omega arith))

utf16-take_nil : (j : ℕ) → utf16 (take j []) ≡ []
utf16-take_nil zero = refl
utf16-take_nil (suc j) = refl

is_full : (c n : ℕ) → n ≡ 62 → (c == 0 || not (ltb n 62)) ≡ true
is_full c n e = ground arith

has_room : (c n : ℕ) → 0 < c → n < 62 → (c == 0 || not (ltb n 62)) ≡ false
has_room c n p h = ground arith

small :
    (n : ℕ)
    → ((2 + 2 * min 30 n) % 2 ^ 16 ≡ 2 + 2 * min 30 n)
      × ((2 + 2 * min 30 n) % 2 ^ 8 ≡ 2 + 2 * min 30 n)
small n = (omega arith, omega arith)

-- The loop with room for `j` more characters.
string_loop_lem :
    (cs junk : List ℕ) (j n : ℕ) (buf : List ℕ)
    → IsText cs
    → n + 2 * j ≡ 62
    → length buf ≡ 64
    → let t = string_loop (cs ++ 0 ∷ junk) n buf in
      (t.0 ≡ n + 2 * min j (length cs))
      × (length t.1 ≡ 64)
      × (take t.0 t.1 ≡ take n buf ++ utf16 (take j cs))
unfolding string_loop
string_loop_lem [] junk j n buf p e l =
    (omega arith, l, sym (ap (λ r. take n buf ++ r) (utf16-take_nil j) ∙ append-nil (take n buf)))
string_loop_lem (c ∷ cs) junk zero n buf p e l =
    rw (string_loop, is_full c n (omega arith)) (omega arith, l, sym (append-nil (take n buf)))
string_loop_lem (c ∷ cs) junk (suc j) n buf p e l =
    let next = set (set buf n c) (suc n) 0 in
    let size = length-set (set buf n c) (suc n) 0 ∙ length-set buf n c ∙ l in
    let k = string_loop_lem cs junk j (suc (suc n)) next p.1 (omega arith) size in
    rw (string_loop, has_room c n p.0 (omega arith))
      (
        omega (arith, k.0),
        k.1,
        k.2
            ∙ ap (λ r. r ++ utf16 (take j cs)) (take-set buf n c (omega arith))
            ∙ append_assoc (take n buf) (c ∷ 0 ∷ []) (utf16 (take j cs)),
      )

-- The first two bytes of a buffer are replaced.
take-header :
    (xs zs : List ℕ) (n x y p q : ℕ)
    → 2 ≤ n
    → take n xs ≡ p ∷ q ∷ zs
    → take n (set (set xs 0 x) 1 y) ≡ x ∷ y ∷ zs
take-header xs zs zero x y p q h e = absurd (omega arith)
take-header xs zs (suc zero) x y p q h e = absurd (omega arith)
take-header [] zs (suc (suc n)) x y p q h e = absurd (omega (arith, ap length e))
take-header (a ∷ []) zs (suc (suc n)) x y p q h e = absurd (omega (arith, ap length e))
take-header (a ∷ b ∷ xs) zs (suc (suc n)) x y p q h e = ap (λ r. x ∷ y ∷ r) (ap (λ r. drop 2 r) e)

first_two : (buf : List ℕ) → 2 ≤ length buf → (p : ℕ) × (q : ℕ) × (take 2 buf ≡ p ∷ q ∷ [])
first_two [] h = absurd (omega arith)
first_two (p ∷ []) h = absurd (omega arith)
first_two (p ∷ q ∷ buf) h = (p, q, refl)

-- `msc_string_desc` of any string without NUL inside it stays within its buffer of 64 bytes: it
-- gives a descriptor of the string's first 30 characters at most, in UTF-16LE behind its own
-- length and the string type, and that length.
pub msc_string_desc_lem :
    (cs junk buf : List ℕ)
    → IsText cs
    → length buf ≡ 64
    → let r = msc_string_desc (cs ++ 0 ∷ junk) buf in
      let n = 2 + 2 * min 30 (length cs) in
      (r.0 ≡ n) × (length r.1 ≡ 64) × (take r.0 r.1 ≡ n ∷ usb_desc_type_string ∷ utf16 (take 30 cs))
unfolding msc_string_desc
msc_string_desc_lem cs junk buf p l =
    let k = string_loop_lem cs junk 30 2 buf p refl l in
    let h = first_two buf (omega arith) in
    let n = 2 + 2 * min 30 (length cs) in
    let out = (string_loop (cs ++ 0 ∷ junk) 2 buf).1 in
    rw (k.0, (small (length cs)).0, (small (length cs)).1)
      (
        refl,
        length-set (set out 0 n) 1 3 ∙ length-set out 0 n ∙ k.1,
        take-header out (utf16 (take 30 cs)) n n 3 h.0 h.1 (omega arith)
            (ap (λ m. take m out) (sym k.0) ∙ k.2 ∙ ap (λ r. r ++ utf16 (take 30 cs)) h.2),
      )
