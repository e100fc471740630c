-- ===== src/Tests/Threads.antt =====
-- Runs of `Close` in several goroutines.
use fabricsdk.Base.{◌⊎◌, ◌≡◌, refl, true, false}
use fabricsdk.Goroutines.{update}
use fabricsdk.Submit.Threads.{over}
use fabricsdk.Client.Threads.{
  Owned, idle, using, entering, storing, closing_gateway, closing_connection, closing_identity,
  leaving, returned, Move, load, call_close, first, store, close_gateway, close_connection,
  keep_identity, leave, System, by, Reach, start, later,
}
use fabricsdk.Client.Threads.Closing.{Bounded, AllClosed, is_returned, Reach-closing}
use fabricsdk.Identities.Threads
use fabricsdk.Identities.Threads.Racing.{Reach-raced}

-- A client with a connection of its own.
abbrev owned : Owned
owned = record { connection = true; identity = false }

-- One goroutine has closed the client while another uses it.
abbrev closed : System
closed = record {
  shared = record { once = over; is_closed = true; gateways = 1; connections = 1; identities = 0 };
  pc =
      update
        (update
          (update
            (update
              (update (update (update (update (λ i. idle) 1 using) 0 entering) 0 storing) 0
                closing_gateway)
              0 closing_connection)
            0 closing_identity)
          0 leaving)
        0 returned;
}

closed_run : Reach owned closed
closed_run =
    later
      (later
        (later
          (later
            (later
              (later (later (later start (by 1 (load refl refl))) (by 0 (call_close refl)))
                (by 0 (first refl)))
              (by 0 store))
            (by 0 close_gateway))
          (by 0 (close_connection refl)))
        (by 0 (keep_identity refl)))
      (by 0 leave)

Reach-closing_example :
    Bounded owned closed.shared
    × ((is_returned (closed.pc 0) ≡ false)
        ⊎ (AllClosed owned closed.shared
            × (¬ Move owned closed.shared (closed.pc 1) closed.shared using)))
Reach-closing_example = Reach-closing closed_run 0 1 closed.shared

Reach-raced_example :
    (s : fabricsdk.Identities.Threads.System) × fabricsdk.Identities.Threads.Reach s
    × (s.shared.calls ≡ 2)
    × (s.pc 2 ≡ fabricsdk.Identities.Threads.panicked)
Reach-raced_example = Reach-raced 1
