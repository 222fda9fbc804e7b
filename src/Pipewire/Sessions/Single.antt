-- ===== src/Pipewire/Sessions/Single.antt =====
-- daemon/src/pw.rs: no socket is watched twice at a time.
use system76_scheduler.Base.{
  ==_iff, Bool, Bool-cases, List, String, [], arith, contains, contains-append, contains-discard,
  false, if◌then◌else◌, inl, inr, nat_eq, string_eq, suc, true, ℕ, ◌++◌, ◌+◌, ◌==◌, ◌∷◌, ◌≡◌, ◌≤◌,
}
use system76_scheduler.Pipewire.Sessions.{
  Sessions, SocketEvent, new_sessions, on_socket, on_sockets,
}

abbrev pub count_text : String → List String → ℕ
count_text s [] = 0
count_text s (t ∷ rest) = let more = count_text s rest in if t == s then suc more else more

count_text-append :
    (s : String) (xs ys : List String) → count_text s (xs ++ ys) ≡ count_text s xs + count_text s ys
count_text-append s [] ys = omega arith
count_text-append s (t ∷ xs) ys = ground (arith, count_text-append s xs ys)

abbrev pub IsSingle : Sessions → String → Type 0
IsSingle m s =
    count_text s m.started ≤ count_text s m.ended + (if contains m.active s then 1 else 0)

on_socket-IsSingle :
    (m : Sessions) (event : SocketEvent × Bool) (s : String)
    → IsSingle m s
    → IsSingle (on_socket m event) s
unfolding on_socket
on_socket-IsSingle m (SocketEvent.add socket, connects) s h =
    elim (Bool-cases (contains m.active socket)) [
      | inl e ↦ rw e h
      | inr e ↦ rw e (spawned connects e)
    ]
  where
    spawned :
        (b : Bool)
        → contains m.active socket ≡ false
        → IsSingle
            (if b
              then record m { active = m.active ++ socket ∷ []; started = m.started ++ socket ∷ [] }
              else m)
            s
    spawned false absent = h
    spawned true absent = ground (
      arith,
      count_text-append s m.started (socket ∷ []),
      contains-append m.active (socket ∷ []) s,
      ==_iff socket s,
    )
on_socket-IsSingle m (SocketEvent.remove socket, connects) s h = ground (
  arith,
  count_text-append s m.ended (socket ∷ []),
  contains-discard socket s m.active,
  ==_iff socket s,
)

on_sockets-keeps :
    (m : Sessions) (events : List (SocketEvent × Bool)) (s : String)
    → IsSingle m s
    → IsSingle (on_sockets m events) s
unfolding on_sockets
on_sockets-keeps m [] s h = h
on_sockets-keeps m (event ∷ rest) s h =
    on_sockets-keeps (on_socket m event) rest s (on_socket-IsSingle m event s h)

-- Whatever events arrive and whichever connections succeed, for each socket there was one thread
-- started at most for each that has ended, and one more at most while the session is active: a thread
-- sends its removal when it ends, so no socket is watched by two threads at a time.
pub on_sockets-IsSingle :
    (events : List (SocketEvent × Bool)) (s : String) → IsSingle (on_sockets new_sessions events) s
on_sockets-IsSingle events s = on_sockets-keeps new_sessions events s (omega arith)
