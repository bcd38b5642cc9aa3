-- ===== src/Scrape/Keys.antt =====
-- scrape.go: the keys of the metrics and those of the health gauges.
use ietf_scion_testbed.Prelude.{
  ℕ, ◌≡◌, refl, sym, ap, ◌∙◌, Bool, false, ◌&&◌, Option, none, some, [], ◌∷◌, ◌++◌, Bytes, bytes,
  ◌==◌, nat_eq, bytes_eq, bytes_beq_iff, nat_beq_iff, contains, All, IsDigit, itoa, itoa-IsDigit,
  itoa-injective, cut_at, cut_at-append, Bool-cases, inl, inr, arith,
}
use ietf_scion_testbed.Scrape.{Target, metric_key, health_key}

-- a segment of a key
abbrev pub IsPlain : Bytes → Type 0
IsPlain text = contains text b'/' ≡ false

IsPlain-digits : (text : Bytes) → All IsDigit text → IsPlain text
IsPlain-digits [] h = refl
IsPlain-digits (c ∷ cs) (d, h) = ground (arith, d, IsPlain-digits cs h)

IsPlain-itoa : (n : ℕ) → IsPlain (itoa n)
IsPlain-itoa n = IsPlain-digits (itoa n) (itoa-IsDigit n)

-- what stands before and behind the first slash
abbrev first : Option (Bytes × Bytes) → Bytes
first none = []
first (some (before, after)) = before

abbrev behind : Option (Bytes × Bytes) → Bytes
behind none = []
behind (some (before, after)) = after

third : Bytes → Bytes
third key = first (cut_at b'/' (behind (cut_at b'/' (behind (cut_at b'/' key)))))

third-segments :
    (a b c d : Bytes)
    → IsPlain a
    → IsPlain b
    → IsPlain c
    → third (a ++ b'/' ∷ (b ++ b'/' ∷ (c ++ b'/' ∷ d))) ≡ c
unfolding third
third-segments a b c d p q r =
    rw
      (
        cut_at-append b'/' a (b ++ b'/' ∷ (c ++ b'/' ∷ d)) p,
        cut_at-append b'/' b (c ++ b'/' ∷ d) q,
        cut_at-append b'/' c d r,
      )
      refl

-- a name of a metric that the health gauge does not have
abbrev pub IsOwnPart : Bytes → Type 0
IsOwnPart part = IsPlain part × ((part == bytes "_up") ≡ false)

third_part :
    (t u : Target) (part if_id : Bytes)
    → IsPlain t.service
    → IsPlain u.service
    → IsPlain part
    → metric_key t part if_id ≡ health_key u
    → part ≡ bytes "_up"
unfolding metric_key health_key
third_part t u part if_id p q r e =
    sym (third-segments (itoa t.as_num) t.service part if_id (IsPlain-itoa t.as_num) p r)
    ∙ ap third e
    ∙ third-segments (itoa u.as_num) u.service (bytes "_up") [] (IsPlain-itoa u.as_num) q refl

-- No metric of an interface is stored under the key of a health gauge.
pub metric_key-health_key :
    (t u : Target) (part if_id : Bytes)
    → IsPlain t.service
    → IsPlain u.service
    → IsOwnPart part
    → (metric_key t part if_id == health_key u) ≡ false
metric_key-health_key t u part if_id p q (r, other) =
    elim (Bool-cases (metric_key t part if_id == health_key u)) [
      | inr apart ↦ apart
      | inl same ↦
          let e = (bytes_beq_iff (metric_key t part if_id) (health_key u)).0 same in
          let up = (bytes_beq_iff part (bytes "_up")).1 (third_part t u part if_id p q r e) in
          same ∙ (sym up ∙ other)
    ]

abbrev pub same_target : Target → Target → Bool
same_target t u = (t.as_num == u.as_num) && (t.service == u.service)

cut-health_key :
    (t : Target) → cut_at b'/' (health_key t) ≡ some (itoa t.as_num, t.service ++ bytes "/_up/")
unfolding health_key
cut-health_key t =
    cut_at-append b'/' (itoa t.as_num) (t.service ++ bytes "/_up/") (IsPlain-itoa t.as_num)

cut-service :
    (t : Target)
    → IsPlain t.service
    → cut_at b'/' (t.service ++ bytes "/_up/") ≡ some (t.service, bytes "_up/")
cut-service t p = cut_at-append b'/' t.service (bytes "_up/") p

health_key-injective :
    (t u : Target)
    → IsPlain t.service
    → IsPlain u.service
    → health_key t ≡ health_key u
    → (t.as_num ≡ u.as_num) × (t.service ≡ u.service)
health_key-injective t u p q e =
    let cuts = sym (cut-health_key t) ∙ ap (cut_at b'/') e ∙ cut-health_key u in
    (
      itoa-injective t.as_num u.as_num (ap first cuts),
      ap first (sym (cut-service t p) ∙ ap (λ c. cut_at b'/' (behind c)) cuts ∙ cut-service u q),
    )

-- Two targets share a health gauge exactly if they are of the same AS and service.
pub health_key-same_target :
    (t u : Target)
    → IsPlain t.service
    → IsPlain u.service
    → (health_key t == health_key u) ≡ same_target t u
unfolding health_key
health_key-same_target t u p q = elim (Bool-cases (health_key t == health_key u)) [
  | inl same ↦
      let (n, s) =
        health_key-injective t u p q ((bytes_beq_iff (health_key t) (health_key u)).0 same) in
      rw (same, (nat_beq_iff t.as_num u.as_num).1 n, (bytes_beq_iff t.service u.service).1 s) refl
  | inr other ↦ elim (Bool-cases (t.as_num == u.as_num)) [
    | inr n ↦ rw (other, n) refl
    | inl n ↦ elim (Bool-cases (t.service == u.service)) [
      | inr s ↦ rw (other, n, s) refl
      | inl s ↦
          let e : health_key t ≡ health_key u =
            rw ((nat_beq_iff t.as_num u.as_num).0 n, (bytes_beq_iff t.service u.service).0 s)
              refl in
          rw ((bytes_beq_iff (health_key t) (health_key u)).1 e, n, s) refl
    ]
  ]
]
