-- ===== src/Dashboard/Broadcast.antt =====
-- api.go: the invariant of the live feed over the steps of the broadcast.
use mathlib.Core.List.{map-append}
use ietf_scion_testbed.Prelude.{
  length, ℕ, ◌≡◌, refl, ap, ◌∙◌, Bool, true, false, Option, none, some, List, [], ◌∷◌, ◌++◌,
  append_assoc, append-nil, if◌then◌else◌, ◌==◌, nat_eq, beq_refl, contains, Distinct, lookup, inl,
  inr, arith,
}
use ietf_scion_testbed.Dashboard.Air.{
  Message, Phase, greeting, greeted, joined, gone, Conn, Air, silence, on_conn, drop_client, cast,
  cast_at, write, write_at, write_next,
}
use ietf_scion_testbed.Dashboard.Steady.{
  due, Heard, IsInPhase, IsServed, IsSteady, with_client, Hears-Heard, drop_client-IsSteady,
}

module _ {X : Type 0} where
  -- a client while a new frame is noted, of which it is owed one if it is in the hub
  cast_phase :
      (inc : Bool) (f : X) (aired : List X) (r : List (Message X)) (p : Phase X)
      → IsInPhase inc [] aired r p
      → IsInPhase inc (if inc then f ∷ [] else []) (aired ++ f ∷ []) r p
  cast_phase inc f aired r (greeting g) (e, i, o) = (e, i, rw i refl)
  cast_phase inc f aired r greeted (g, e, i, o) = (g, e, i, rw i refl)
  cast_phase inc f aired r joined (i, (g, ds, pre, e, k)) =
      (i, (g, ds, pre, e, rw (k, i) (simp (append_assoc, append-nil) refl)))
  cast_phase inc f aired r gone (i, inl e) = (i, inl e)
  cast_phase inc f aired r gone (i, inr (g, ds, pre, post, e, k)) =
      (i, inr (g, ds, pre, post ++ f ∷ [], e, rw k (simp append_assoc refl)))

  cast_served :
      (inc : Bool) (f : X) (aired : List X) (o : Option (Conn X))
      → IsServed inc [] aired o
      → IsServed inc (if inc then f ∷ [] else []) (aired ++ f ∷ []) o
  cast_served inc f aired none (i, o) = (i, rw i refl)
  cast_served inc f aired (some conn) h = cast_phase inc f aired conn.received conn.phase h

  pub cast-IsSteady : (a : Air X) (f : X) → IsSteady a → IsSteady (cast a f)
  unfolding cast
  cast-IsSteady a f s = go a.casting refl
    where
      go : (o : Option (X × List ℕ)) → a.casting ≡ o → IsSteady (cast_at a f o)
      go (some under_way) e = s
      go none e = record {
        conns_distinct = s.conns_distinct;
        left_distinct = s.conns_distinct;
        served = λ c.
            cast_served (contains a.conns c) f a.aired (lookup c a.clients) (rw e at (s.served c));
      }

  -- one write of a broadcast, of a client that is owed the frame
  write_at-IsSteady :
      (a : Air X) (c : ℕ) (f : X) (rest : List ℕ) (ok : Bool) (p : Phase X) (r : List (Message X))
      → IsSteady a
      → a.casting ≡ some (f, c ∷ rest)
      → IsInPhase (contains a.conns c) (f ∷ []) a.aired r p
      → IsSteady (
          write_at
            (record a { casting = some (f, rest) })
            c
            f
            ok
            (record { phase = p; received = r })
            p)
  write_at-IsSteady a c f rest ok p r s e h = go p r h ok
    where
      l : Distinct (c ∷ rest)
      l = rw e at s.left_distinct

      k : (y : ℕ) → (c == y) ≡ false → due (some (f, rest)) y ≡ due a.casting y
      k y other = rw (e, other) refl

      dropped :
          (p : Phase X) (r : List (Message X))
          → Heard r a.aired
          → IsSteady (
              drop_client
                (record a { casting = some (f, rest) })
                c
                (record { phase = p; received = r }))
      dropped p r heard = drop_client-IsSteady a c p r (some (f, rest)) s k l.1 heard

      go :
          (p : Phase X) (r : List (Message X))
          → IsInPhase (contains a.conns c) (f ∷ []) a.aired r p
          → (ok : Bool)
          → IsSteady (
              write_at
                (record a { casting = some (f, rest) })
                c
                f
                ok
                (record { phase = p; received = r })
                p)
      go joined r (inc, (g, ds, pre, m, q)) true =
          with_client a c _ a.conns (some (f, rest)) s (λ y o. refl) k s.conns_distinct l.1
            (inc, (g, ds ++ f ∷ [], pre, rw (m, map-append) refl, q ∙ rw (l.0, append-nil) refl))
      go joined r (inc, h) false = dropped joined r (Hears-Heard r a.aired (f ∷ []) h)
      go (greeting g) r (m, inc, o) ok = dropped (greeting g) r (inl m)
      go greeted r (g, m, inc, o) ok = absurd (ground (arith, ap length o))
      go gone r (inc, h) ok = dropped gone r h

  pub write-IsSteady : (a : Air X) (ok : Bool) → IsSteady a → IsSteady (write a ok)
  unfolding write
  write-IsSteady a ok s = go a.casting refl
    where
      go : (o : Option (X × List ℕ)) → a.casting ≡ o → IsSteady (write_next a ok o)
      go none e = s
      go (some (f, [])) e = record {
        conns_distinct = s.conns_distinct;
        left_distinct = tt;
        served = λ c. rw e at (s.served c);
      }
      go (some (f, c ∷ rest)) e = found (lookup c a.clients) refl
        where
          served_c :
              (o : Option (Conn X))
              → lookup c a.clients ≡ o
              → IsServed (contains a.conns c) (f ∷ []) a.aired o
          served_c o q = rw (e, beq_refl c, q) at (s.served c)

          found :
              (o : Option (Conn X))
              → lookup c a.clients ≡ o
              → IsSteady (
                  on_conn
                    (record a { casting = some (f, rest) })
                    (λ (conn : Conn X).
                      write_at (record a { casting = some (f, rest) }) c f ok conn conn.phase)
                    o)
          found none q = absurd (ground (arith, ap length (served_c none q).1))
          found (some conn) q =
              write_at-IsSteady a c f rest ok conn.phase conn.received s e (served_c (some conn) q)

  pub silence-IsSteady : IsSteady (silence {X = X})
  unfolding lookup
  silence-IsSteady = record { conns_distinct = tt; left_distinct = tt; served = λ c. (refl, refl) }
