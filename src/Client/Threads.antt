-- ===== src/Client/Threads.antt =====
-- client.go and contract.go: `FabricClient.Close` and the calls that ask the client for its gateway, from
-- several goroutines, as interleaved steps. `sync.Once` and `atomic.Bool` are as documented.
pub mod Closing
use fabricsdk.Base.{ℕ, ◌+◌, ◌≡◌, Bool, true, false}
use fabricsdk.Goroutines.{update}
use fabricsdk.Submit.Threads.{Once, fresh, running, over}

-- What `build` and `New` set for good: whether the connection and the identity are the client's own.
pub record Owned : Type 0 where
  pub connection : Bool
  pub identity : Bool

-- The fields `closeOnce` and `closed`, and how often the client has closed its gateway, its connection
-- and its identity.
pub record Shared : Type 0 where
  pub once : Once
  pub is_closed : Bool
  pub gateways : ℕ
  pub connections : ℕ
  pub identities : ℕ

-- Where a goroutine stands: outside, with the client's gateway in hand, before `closeOnce.Do`, in the
-- function behind it before each of its statements and at its end, and after a call of `Close`.
pub data Pc : Type 0 where
  idle using entering : Pc
  storing closing_gateway closing_connection closing_identity leaving : Pc
  returned : Pc

abbrev pub is_outside : Pc → Bool
is_outside idle = true
is_outside returned = true
is_outside _ = false

-- One step of one goroutine. `load` and `refuse` are the test of `closed` in `gateway`.
pub data Move (o : Owned) (m : Shared) : Pc → Shared → Pc → Type 0 where
  load : {p : Pc} → is_outside p ≡ true → m.is_closed ≡ false → Move o m p m using
  refuse : {p : Pc} → is_outside p ≡ true → m.is_closed ≡ true → Move o m p m idle
  finish : Move o m using m idle
  call_close : {p : Pc} → is_outside p ≡ true → Move o m p m entering
  first : m.once ≡ fresh → Move o m entering (record m { once = running }) storing
  again : m.once ≡ over → Move o m entering m returned
  store : Move o m storing (record m { is_closed = true }) closing_gateway
  close_gateway :
      Move o m closing_gateway (record m { gateways = m.gateways + 1 }) closing_connection
  close_connection :
      o.connection ≡ true
      → Move o m closing_connection (record m { connections = m.connections + 1 }) closing_identity
  keep_connection : o.connection ≡ false → Move o m closing_connection m closing_identity
  close_identity :
      o.identity ≡ true
      → Move o m closing_identity (record m { identities = m.identities + 1 }) leaving
  keep_identity : o.identity ≡ false → Move o m closing_identity m leaving
  leave : Move o m leaving (record m { once = over }) returned

-- The client and its goroutines.
pub record System : Type 0 where
  pub shared : Shared
  pub pc : ℕ → Pc

pub data Step (o : Owned) (s : System) : System → Type 0 where
  by :
      (i : ℕ) {m : Shared} {p : Pc}
      → Move o s.shared (s.pc i) m p
      → Step o s (record { shared = m; pc = update s.pc i p })

-- A client as it is built.
abbrev pub built : System
built = record {
  shared = record {
    once = fresh;
    is_closed = false;
    gateways = 0;
    connections = 0;
    identities = 0;
  };
  pc = λ i. idle;
}

pub data Reach (o : Owned) : System → Type 0 where
  start : Reach o built
  later : {s t : System} → Reach o s → Step o s t → Reach o t
