-- ===== src/Parser/Fields.antt =====
-- Fields that stand in front of a string, one after the other, are read in that order.
use sponge_fa.Prelude.{
  if◌then◌else◌, ℕ, ◌^◌, ◌≤◌, ◌<◌, ◌≡◌, ◌∙◌, refl, ap, sym, List, ◌++◌, Option, some, length, drop,
  arith,
}
use mathlib.Core.Path.{subst}
use sponge_fa.Buffer as Buffers
use sponge_fa.Buffer.{of_string, Buffer, str, size}
use sponge_fa.Buffer.Prefix.{size_lem, IsValid, remove_prefix_next}
use sponge_fa.Parser.{
  new, NetParser, and_then, is_error, parsed, with_buffer, parse_loop, parse_int, u32, u16, u8,
  int_bytes, remove_prefix,
}
use sponge_fa.Parser.Integers.{
  parse_int-enough, check_size-enough, parse_loop-bytes_4, parse_loop-bytes_2, parse_loop-bytes_1,
}

-- A buffer that shows a string.
abbrev pub At : Buffer → List ℕ → Type 0
At b s = IsValid b × (str b ≡ s)

pub of_string-At : (s : List ℕ) → length s < 2 ^ 64 → At (of_string s) s
unfolding of_string str
of_string-At s small = (record { sized = omega arith }, refl)

int_next :
    (len val : ℕ) (b : Buffer) (s rest : List ℕ)
    → At b s
    → len ≤ length s
    → parse_loop len len 0 0 b ≡ some val
    → drop len s ≡ rest
    → (b' : Buffer) × (parse_int len (new b) ≡ some (val, new b')) × At b' rest
int_next len val b s rest (v, shown) long loop behind =
    let fits : len ≤ size b = omega (arith, size_lem b, ap length shown) in
    let (b', e, shown', v') = remove_prefix_next b len v fits in
    (
      b',
      parse_int-enough len b fits
          ∙ (ap (λ r. parsed (new b) r (Buffers.remove_prefix b len)) loop
              ∙ ap (parsed (new b) (some val)) e),
      (v', shown' ∙ (ap (drop len) shown ∙ behind)),
    )

module _ {ℓ} {A : Type 0} (P : Option A → Type ℓ) (k : ℕ → NetParser → Option A) (b : Buffer)
    (val : ℕ) (rest : List ℕ) (next : (b' : Buffer) → At b' rest → P (k val (new b'))) where
  and_then-next :
      (o : Option (ℕ × NetParser))
      → ((b' : Buffer) × (o ≡ some (val, new b')) × At b' rest)
      → P (and_then o k)
  and_then-next o (b', e, a) = subst (λ r. P (and_then r k)) (sym e) (next b' a)

  -- Reading a field with any continuation.
  pub u32_next : val < 2 ^ 32 → At b (int_bytes 4 val ++ rest) → P (and_then (u32 (new b)) k)
  unfolding u32 int_bytes
  u32_next small (v, shown) = and_then-next (u32 (new b)) (
      int_next 4 val b _ rest (v, shown) (omega arith) (parse_loop-bytes_4 b val rest small shown)
        refl)

  pub u16_next : val < 2 ^ 16 → At b (int_bytes 2 val ++ rest) → P (and_then (u16 (new b)) k)
  unfolding u16 int_bytes
  u16_next small (v, shown) = and_then-next (u16 (new b)) (
      int_next 2 val b _ rest (v, shown) (omega arith) (parse_loop-bytes_2 b val rest small shown)
        refl)

  pub u8_next : val < 2 ^ 8 → At b (int_bytes 1 val ++ rest) → P (and_then (u8 (new b)) k)
  unfolding u8 int_bytes
  u8_next small (v, shown) = and_then-next (u8 (new b)) (
      int_next 1 val b _ rest (v, shown) (omega arith) (parse_loop-bytes_1 b val rest small shown)
        refl)

-- Dropping what stands in front.
pub remove_prefix-At :
    (b : Buffer) (n : ℕ) (s rest : List ℕ)
    → At b s
    → n ≤ length s
    → drop n s ≡ rest
    → (b' : Buffer) × (remove_prefix (new b) n ≡ some (new b')) × At b' rest
unfolding remove_prefix
remove_prefix-At b n s rest (v, shown) long behind =
    let fits : n ≤ size b = omega (arith, size_lem b, ap length shown) in
    let (b', e, shown', v') = remove_prefix_next b n v fits in
    (
      b',
      ap
            (λ p'.
              if is_error p'.error
              then some p'
              else with_buffer p' (Buffers.remove_prefix p'.buffer n))
            (check_size-enough b n fits)
          ∙ ap (with_buffer (new b)) e,
      (v', shown' ∙ (ap (drop n) shown ∙ behind)),
    )
