-- ===== src/Dashboard/Steady.antt =====
-- api.go: the invariant of the live feed, and the steps of a client's handler.
use ietf_scion_testbed.Prelude.{
  ℕ, ◌≡◌, refl, Bool, true, false, Option, none, some, List, [], ◌∷◌, ◌++◌, append-nil, map,
  if◌then◌else◌, ◌==◌, nat_eq, nat_beq_iff, beq_refl, contains, Distinct, lookup, insert,
  lookup-insert, Bool-cases, ◌⊎◌, inl, inr, arith,
}
use ietf_scion_testbed.Dashboard.Air.{
  Message, snapshot, frame_msg, Phase, greeting, greeted, joined, gone, Conn, Air, remove, connect,
  connect_new, greet, greet_at, on_conn, join, join_at, drop_client, leave, leave_at,
}

remove_other : (c y : ℕ) (xs : List ℕ) → (c == y) ≡ false → contains (remove c xs) y ≡ contains xs y
remove_other c y [] h = refl
remove_other c y (x ∷ xs) h =
    ground (arith, remove_other c y xs h, nat_beq_iff x c, nat_beq_iff x y, nat_beq_iff c y)

remove_self : (c : ℕ) (xs : List ℕ) → contains (remove c xs) c ≡ false
remove_self c [] = refl
remove_self c (x ∷ xs) = ground (arith, remove_self c xs)

remove_absent : (c y : ℕ) (xs : List ℕ) → contains xs y ≡ false → contains (remove c xs) y ≡ false
remove_absent c y [] h = refl
remove_absent c y (x ∷ xs) h = ground (arith, h, remove_absent c y xs)

Distinct-remove : (c : ℕ) (xs : List ℕ) → Distinct xs → Distinct (remove c xs)
Distinct-remove c [] h = tt
Distinct-remove c (x ∷ xs) (p, h) = elim (Bool-cases (x == c)) [
  | inl same ↦ rw same (Distinct-remove c xs h)
  | inr other ↦ rw other (remove_absent c x xs p, Distinct-remove c xs h)
]

module _ {X : Type 0} where
  -- the clients that the broadcast has not come to
  abbrev pub left_of : Option (X × List ℕ) → List ℕ
  left_of none = []
  left_of (some (f, cs)) = cs

  -- what the broadcast still has for a client
  abbrev pub due : Option (X × List ℕ) → ℕ → List X
  due none c = []
  due (some (f, cs)) c = if contains cs c then f ∷ [] else []

  -- A snapshot, then all frames that were broadcast from some point on, but for those due.
  abbrev pub Hears : List (Message X) → List X → List X → Type 0
  Hears r aired owed =
      (f : X) × (ds : List X) × (pre : List X) × (r ≡ snapshot f ∷ map frame_msg ds)
      × (aired ≡ pre ++ (ds ++ owed))

  -- Nothing, or a snapshot and a run of the frames that were broadcast.
  abbrev pub Heard : List (Message X) → List X → Type 0
  Heard r aired =
      (r ≡ [])
      ⊎ ((f : X) × (ds : List X) × (pre : List X) × (post : List X) × (r
            ≡ snapshot f ∷ map frame_msg ds)
          × (aired ≡ pre ++ (ds ++ post)))

  abbrev pub IsInPhase : Bool → List X → List X → List (Message X) → Phase X → Type 0
  IsInPhase inc owed aired r (greeting f) = (r ≡ []) × (inc ≡ false) × (owed ≡ [])
  IsInPhase inc owed aired r greeted = (f : X) × (r ≡ snapshot f ∷ []) × (inc ≡ false) × (owed ≡ [])
  IsInPhase inc owed aired r joined = (inc ≡ true) × Hears r aired owed
  IsInPhase inc owed aired r gone = (inc ≡ false) × Heard r aired

  abbrev pub IsServed : Bool → List X → List X → Option (Conn X) → Type 0
  IsServed inc owed aired none = (inc ≡ false) × (owed ≡ [])
  IsServed inc owed aired (some conn) = IsInPhase inc owed aired conn.received conn.phase

  pub record IsSteady (a : Air X) : Type 0 where
    pub conns_distinct : Distinct a.conns
    pub left_distinct : Distinct (left_of a.casting)
    pub served :
        (c : ℕ) → IsServed (contains a.conns c) (due a.casting c) a.aired (lookup c a.clients)

  -- a step that changes one client
  pub with_client :
      (a : Air X) (c : ℕ) (conn : Conn X) (conns : List ℕ) (casting : Option (X × List ℕ))
      → IsSteady a
      → ((y : ℕ) → (c == y) ≡ false → contains conns y ≡ contains a.conns y)
      → ((y : ℕ) → (c == y) ≡ false → due casting y ≡ due a.casting y)
      → Distinct conns
      → Distinct (left_of casting)
      → IsServed (contains conns c) (due casting c) a.aired (some conn)
      → IsSteady (record {
        conns = conns;
        clients = insert c conn a.clients;
        casting = casting;
        aired = a.aired;
      })
  with_client a c conn conns casting s h k dc dl ok = record {
    conns_distinct = dc;
    left_distinct = dl;
    served = λ y. elim (Bool-cases (c == y)) [
      | inl same ↦ rw (lookup-insert, same) (rw ((nat_beq_iff c y).0 same) at ok)
      | inr other ↦ rw (lookup-insert, other, h y other, k y other) (s.served y)
    ];
  }

  pub connect-IsSteady : (a : Air X) (c : ℕ) (f : X) → IsSteady a → IsSteady (connect a c f)
  unfolding connect
  connect-IsSteady a c f s = go (lookup c a.clients) refl
    where
      go : (o : Option (Conn X)) → lookup c a.clients ≡ o → IsSteady (connect_new a c f o)
      go (some conn) e = s
      go none e =
          let (inc, owed) = rw e at (s.served c) in
          with_client a c (record { phase = greeting f; received = [] }) a.conns a.casting s
            (λ y h. refl) (λ y h. refl) s.conns_distinct s.left_distinct (refl, inc, owed)

  pub on_conn-IsSteady :
      (a : Air X) (act : Conn X → Air X) (o : Option (Conn X))
      → IsSteady a
      → ((conn : Conn X) → o ≡ some conn → IsSteady (act conn))
      → IsSteady (on_conn a act o)
  on_conn-IsSteady a act none s h = s
  on_conn-IsSteady a act (some conn) s h = h conn refl

  pub greet-IsSteady : (a : Air X) (c : ℕ) (ok : Bool) → IsSteady a → IsSteady (greet a c ok)
  unfolding greet
  greet-IsSteady a c ok s =
      on_conn-IsSteady a (λ (conn : Conn X). greet_at a c ok conn conn.phase) (lookup c a.clients) s
        (λ conn e. go conn.phase conn.received (rw e at (s.served c)) ok)
    where
      go :
          (p : Phase X) (r : List (Message X))
          → IsInPhase (contains a.conns c) (due a.casting c) a.aired r p
          → (ok : Bool) → IsSteady (greet_at a c ok (record { phase = p; received = r }) p)
      go (greeting f) r (e, inc, owed) true =
          with_client a c _ a.conns a.casting s (λ y h. refl) (λ y h. refl) s.conns_distinct
            s.left_distinct (f, rw e refl, inc, owed)
      go (greeting f) r (e, inc, owed) false =
          with_client a c _ a.conns a.casting s (λ y h. refl) (λ y h. refl) s.conns_distinct
            s.left_distinct (inc, inl e)
      go greeted r h ok = s
      go joined r h ok = s
      go gone r h ok = s

  pub join-IsSteady : (a : Air X) (c : ℕ) → IsSteady a → IsSteady (join a c)
  unfolding join
  join-IsSteady a c s =
      on_conn-IsSteady a (λ (conn : Conn X). join_at a c conn conn.phase) (lookup c a.clients) s
        (λ conn e. go conn.phase conn.received (rw e at (s.served c)))
    where
      go :
          (p : Phase X) (r : List (Message X))
          → IsInPhase (contains a.conns c) (due a.casting c) a.aired r p
          → IsSteady (join_at a c (record { phase = p; received = r }) p)
      go (greeting f) r h = s
      go greeted r (f, e, inc, owed) =
          with_client a c _ (c ∷ a.conns) a.casting s (λ y h. rw h refl) (λ y h. refl)
            (inc, s.conns_distinct) s.left_distinct
            (rw (beq_refl c) refl, (f, [], a.aired, e, rw (owed, append-nil) refl))
      go joined r h = s
      go gone r h = s

  pub Hears-Heard :
      (r : List (Message X)) (aired owed : List X) → Hears r aired owed → Heard r aired
  Hears-Heard r aired owed (f, ds, pre, e, k) = inr (f, ds, pre, owed, e, k)

  pub drop_client-IsSteady :
      (a : Air X) (c : ℕ) (p : Phase X) (r : List (Message X)) (casting : Option (X × List ℕ))
      → IsSteady a
      → ((y : ℕ) → (c == y) ≡ false → due casting y ≡ due a.casting y)
      → Distinct (left_of casting)
      → Heard r a.aired
      → IsSteady
          (drop_client (record a { casting = casting }) c (record { phase = p; received = r }))
  drop_client-IsSteady a c p r casting s k dl h =
      with_client a c _ (remove c a.conns) casting s (λ y other. remove_other c y a.conns other) k
        (Distinct-remove c a.conns s.conns_distinct) dl (remove_self c a.conns, h)

  pub leave-IsSteady : (a : Air X) (c : ℕ) → IsSteady a → IsSteady (leave a c)
  unfolding leave
  leave-IsSteady a c s =
      on_conn-IsSteady a (λ (conn : Conn X). leave_at a c conn conn.phase) (lookup c a.clients) s
        (λ conn e. go conn.phase conn.received (rw e at (s.served c)))
    where
      go :
          (p : Phase X) (r : List (Message X))
          → IsInPhase (contains a.conns c) (due a.casting c) a.aired r p
          → IsSteady (leave_at a c (record { phase = p; received = r }) p)
      go (greeting f) r h = s
      go greeted r h = s
      go joined r (inc, h) =
          drop_client-IsSteady a c joined r a.casting s (λ y o. refl) s.left_distinct
            (Hears-Heard r a.aired (due a.casting c) h)
      go gone r h = s
