-- ===== src/Store/Ring.antt =====
-- dashboard/backend/internal/store/store.go: `ring`, generic in its samples. `zero_value` is Go's
-- zero value of a sample, which fills a new buffer.
pub mod Log
use ietf_scion_testbed.Prelude.{
  ℕ, zero, suc, ◌+◌, ◌-◌, ◌%◌, List, [], ◌∷◌, ltb, leb, if◌then◌else◌, get_or, set, replicate, ℤ,
  pos, pos_part, leb_ℤ,
}

pub record Ring {ℓ} (A : Type ℓ) : Type ℓ where
  pub buf : List A
  pub cap : ℕ
  pub next : ℕ
  pub count : ℕ

-- `if capacity <= 0 { capacity = 1 }`
unfoldable pub clamp_capacity : ℤ → ℕ
clamp_capacity capacity = if leb_ℤ capacity (pos 0) then 1 else pos_part capacity

module _ {ℓ} {A : Type ℓ} where
  unfoldable pub new_ring : A → ℤ → Ring A
  new_ring zero_value capacity =
      let capacity' = clamp_capacity capacity in
      record { buf = replicate capacity' zero_value; cap = capacity'; next = 0; count = 0 }

  unfoldable pub put : Ring A → A → Ring A
  put r s = record r {
    buf = set r.buf r.next s;
    next = (r.next + 1) % r.cap;
    count = if ltb r.count r.cap then r.count + 1 else r.count;
  }

  -- `(r.next - 1 + r.cap) % r.cap`; the addition stands first, since `-` on ℕ stops at 0
  unfoldable pub last : A → Ring A → A
  last zero_value r = get_or r.buf ((r.next + r.cap - 1) % r.cap) zero_value

  -- `out[i] = r.buf[(start+i)%r.cap]` for the rounds that are left
  unfoldable pub copy_from : A → List A → ℕ → ℕ → ℕ → List A
  copy_from zero_value buf cap start zero = []
  copy_from zero_value buf cap start (suc rounds) =
      get_or buf (start % cap) zero_value ∷ copy_from zero_value buf cap (start + 1) rounds

  -- After the first test `n ≤ r.count`, which never exceeds `r.cap`, so the start of the copy,
  -- `((r.next-n)%r.cap + r.cap) % r.cap`, is `r.next - n` stepped up by one turn of the ring.
  unfoldable pub last_n : A → Ring A → ℕ → List A
  unfolding copy_from
  last_n zero_value r n =
      let n' = if ltb r.count n then r.count else n in
      if leb n' 0 then [] else copy_from zero_value r.buf r.cap ((r.next + r.cap - n') % r.cap) n'
