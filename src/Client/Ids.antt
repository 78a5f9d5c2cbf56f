-- ===== src/Client/Ids.antt =====
-- client.go, newEventID: a version 4 UUID.
use Prim.Native.Nat.{bit_and, bit_or}
use bugfree_go_sdk.Base.{
  Bool, List, Option, Text, [], ap, arith, get_elem?, if◌then◌else◌, length, ltb, none, refl, some,
  suc, true, zero, ℕ, ◌%◌, ◌&&◌, ◌++◌, ◌+◌, ◌-◌, ◌/◌, ◌<◌, ◌==◌, ◌||◌, ◌∷◌, ◌≡◌,
}

unfoldable pub hex_digit : ℕ → ℕ
hex_digit n = if ltb n 10 then b'0' + n else b'a' + (n - 10)

-- fmt.Sprintf("%x", …) of bytes
unfoldable pub hex : List ℕ → Text
unfolding hex_digit
hex [] = []
hex (b ∷ rest) = hex_digit (b / 16) ∷ hex_digit (b % 16) ∷ hex rest

-- id[6] = id[6]&0x0f | 0x40 and id[8] = id[8]&0x3f | 0x80
unfoldable pub version_byte : ℕ → ℕ
version_byte b = bit_or (bit_and b 0x0f) 0x40

unfoldable pub variant_byte : ℕ → ℕ
variant_byte b = bit_or (bit_and b 0x3f) 0x80

-- The sixteen random bytes, as the parts that the text has.
pub record RandomId : Type 0 where
  pub time_low : ℕ × ℕ × ℕ × ℕ
  pub time_mid : ℕ × ℕ
  pub version : ℕ × ℕ
  pub variant : ℕ × ℕ
  pub node : ℕ × ℕ × ℕ × ℕ × ℕ × ℕ

-- newEventID; `none` is a failure of the random source.
unfoldable pub new_event_id : Option RandomId → Text
unfolding hex version_byte variant_byte
new_event_id none = []
new_event_id (some r) =
    let (a, b, c, d) = r.time_low in
    let (e, f) = r.time_mid in
    let (g, h) = r.version in
    let (i, j) = r.variant in
    let (k, l, m, n, o, p) = r.node in
    hex (a ∷ b ∷ c ∷ d ∷ [])
    ++ (b'-'
        ∷ (hex (e ∷ f ∷ [])
            ++ (b'-'
                ∷ (hex (version_byte g ∷ h ∷ [])
                    ++ (b'-'
                        ∷ (hex (variant_byte i ∷ j ∷ [])
                            ++ (b'-' ∷ hex (k ∷ l ∷ m ∷ n ∷ o ∷ p ∷ []))))))))

-- A test of every byte value under a bound.
passes : (ℕ → Bool) → ℕ → Bool
passes test zero = true
passes test (suc bound) = passes test bound && test bound

passes_each :
    (test : ℕ → Bool) (bound byte : ℕ) → byte < bound → passes test bound ≡ true → test byte ≡ true
unfolding passes
passes_each test zero byte lt h = absurd (omega arith)
passes_each test (suc bound) byte lt h = ground (arith, passes_each test bound byte)

version_table : passes (λ b. hex_digit (version_byte b / 16) == b'4') 256 ≡ true
unfolding passes hex_digit version_byte
version_table = refl

abbrev pub is_variant : ℕ → Bool
is_variant c = (c == b'8') || ((c == b'9') || ((c == b'a') || (c == b'b')))

variant_table : passes (λ b. is_variant (hex_digit (variant_byte b / 16))) 256 ≡ true
unfolding passes hex_digit variant_byte
variant_table = refl

-- Whatever sixteen bytes are drawn, the id has 36 characters, its dashes at the places of a UUID,
-- the version digit 4, and a variant digit of 8, 9, a or b.
pub new_event_id_form :
    (r : RandomId)
    → r.version.0 < 256
    → r.variant.0 < 256
    → (length (new_event_id (some r)) ≡ 36)
      × (get_elem? (new_event_id (some r)) 8 ≡ some b'-')
      × (get_elem? (new_event_id (some r)) 13 ≡ some b'-')
      × (get_elem? (new_event_id (some r)) 14 ≡ some b'4')
      × (get_elem? (new_event_id (some r)) 18 ≡ some b'-')
      × ((c : ℕ) × (get_elem? (new_event_id (some r)) 19 ≡ some c) × (is_variant c ≡ true))
      × (get_elem? (new_event_id (some r)) 23 ≡ some b'-')
unfolding new_event_id
new_event_id_form r v w =
    let digit : hex_digit (version_byte r.version.0 / 16) ≡ b'4' = ground (
      arith,
      passes_each (λ b. hex_digit (version_byte b / 16) == b'4') 256 r.version.0 v version_table,
    ) in
    (
      refl,
      refl,
      refl,
      ap some digit,
      refl,
      (
        hex_digit (variant_byte r.variant.0 / 16),
        refl,
        passes_each _ 256 r.variant.0 w variant_table,
      ),
      refl,
    )
