-- ===== src/Dashboard/Air.antt =====
-- api.go: the clients of the live feed. The steps of a client's handler (`handleLive`) and of the
-- broadcast (`hub.broadcast`) can come in any order; each locks the hub on its own.
use ietf_scion_testbed.Prelude.{
  ℕ, Bool, true, false, not, Option, none, some, List, [], ◌∷◌, ◌++◌, ◌==◌, nat_eq, keep_if, Map,
  lookup, insert,
}

-- The first message also holds the topology, which does not change.
pub data Message (X : Type 0) : Type 0 where
  snapshot : X → Message X
  frame_msg : X → Message X

-- A client whose handler has read a frame for the snapshot but not written it, has written it, or has
-- added the client to the hub; or the connection is closed.
pub data Phase (X : Type 0) : Type 0 where
  greeting : X → Phase X
  greeted : Phase X
  joined : Phase X
  gone : Phase X

-- `received` is what was written to the connection without an error.
pub record Conn (X : Type 0) : Type 0 where
  pub phase : Phase X
  pub received : List (Message X)

-- The hub's clients, what is known of every connection, and the broadcast that is under way with the
-- clients that it has not come to. `aired` notes every frame that was broadcast.
pub record Air (X : Type 0) : Type 0 where
  pub conns : List ℕ
  pub clients : Map ℕ (Conn X)
  pub casting : Option (X × List ℕ)
  pub aired : List X

abbrev pub silence : {X : Type 0} → Air X
silence = record { conns = []; clients = []; casting = none; aired = [] }

-- `delete(h.conns, c)`
abbrev pub remove : ℕ → List ℕ → List ℕ
remove c conns = keep_if (λ x. not (x == c)) conns

module _ {X : Type 0} where
  abbrev pub connect_new : Air X → ℕ → X → Option (Conn X) → Air X
  connect_new a c f (some conn) = a
  connect_new a c f none = record a {
    clients = insert c (record { phase = greeting f; received = [] }) a.clients;
  }

  unfoldable pub connect : Air X → ℕ → X → Air X
  connect a c f = connect_new a c f (lookup c a.clients)

  -- the snapshot is marshalled and written, or the connection is closed
  abbrev pub greet_with : Bool → X → Conn X → Conn X
  greet_with true f conn = record { phase = greeted; received = conn.received ++ snapshot f ∷ [] }
  greet_with false f conn = record conn { phase = gone }

  abbrev pub greet_at : Air X → ℕ → Bool → Conn X → Phase X → Air X
  greet_at a c ok conn (greeting f) = record a {
    clients = insert c (greet_with ok f conn) a.clients;
  }
  greet_at a c ok conn greeted = a
  greet_at a c ok conn joined = a
  greet_at a c ok conn gone = a

  abbrev pub on_conn : Air X → (Conn X → Air X) → Option (Conn X) → Air X
  on_conn a act none = a
  on_conn a act (some conn) = act conn

  unfoldable pub greet : Air X → ℕ → Bool → Air X
  greet a c ok = on_conn a (λ (conn : Conn X). greet_at a c ok conn conn.phase) (lookup c a.clients)

  -- `hub.add`
  abbrev pub join_at : Air X → ℕ → Conn X → Phase X → Air X
  join_at a c conn greeted = record a {
    conns = c ∷ a.conns;
    clients = insert c (record conn { phase = joined }) a.clients;
  }
  join_at a c conn (greeting f) = a
  join_at a c conn joined = a
  join_at a c conn gone = a

  unfoldable pub join : Air X → ℕ → Air X
  join a c = on_conn a (λ (conn : Conn X). join_at a c conn conn.phase) (lookup c a.clients)

  -- `hub.remove` and the closing of the connection behind it, as one step: what comes between the two
  -- in the code finds the client out of the hub either way
  abbrev pub drop_client : Air X → ℕ → Conn X → Air X
  drop_client a c conn = record a {
    conns = remove c a.conns;
    clients = insert c (record conn { phase = gone }) a.clients;
  }

  abbrev pub leave_at : Air X → ℕ → Conn X → Phase X → Air X
  leave_at a c conn joined = drop_client a c conn
  leave_at a c conn (greeting f) = a
  leave_at a c conn greeted = a
  leave_at a c conn gone = a

  -- the reading loop ends
  unfoldable pub leave : Air X → ℕ → Air X
  leave a c = on_conn a (λ (conn : Conn X). leave_at a c conn conn.phase) (lookup c a.clients)

  abbrev pub cast_at : Air X → X → Option (X × List ℕ) → Air X
  cast_at a f (some under_way) = a
  cast_at a f none = record a { casting = some (f, a.conns); aired = a.aired ++ f ∷ [] }

  -- A frame is broadcast. The loop that does it waits until the last broadcast is through.
  unfoldable pub cast : Air X → X → Air X
  cast a f = cast_at a f a.casting

  -- one write of a broadcast; a closed connection gives an error
  abbrev pub write_at : Air X → ℕ → X → Bool → Conn X → Phase X → Air X
  write_at a c f true conn joined = record a {
    clients = insert c (record conn { received = conn.received ++ frame_msg f ∷ [] }) a.clients;
  }
  write_at a c f false conn joined = drop_client a c conn
  write_at a c f ok conn (greeting g) = drop_client a c conn
  write_at a c f ok conn greeted = drop_client a c conn
  write_at a c f ok conn gone = drop_client a c conn

  abbrev pub write_next : Air X → Bool → Option (X × List ℕ) → Air X
  write_next a ok none = a
  write_next a ok (some (f, [])) = record a { casting = none }
  write_next a ok (some (f, c ∷ rest)) =
      on_conn (record a { casting = some (f, rest) })
        (λ (conn : Conn X). write_at (record a { casting = some (f, rest) }) c f ok conn conn.phase)
        (lookup c a.clients)

  unfoldable pub write : Air X → Bool → Air X
  write a ok = write_next a ok a.casting
