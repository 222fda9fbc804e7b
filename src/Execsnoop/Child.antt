-- ===== src/Execsnoop/Child.antt =====
-- execsnoop/src/lib.rs: the child process of `watch`, and what becomes of it.
use system76_scheduler.Base.{
  Bool, List, [], false, if◌then◌else◌, nat_eq, refl, string_eq, true, ◌++◌, ◌∷◌, ◌≡◌,
}

-- What is done with the child process
pub data ChildCall : Type 0 where
  spawn kill wait : ChildCall

-- What `spawn` gives: an error, or a child with or without a pipe
pub data Spawned : Type 0 where
  error : Spawned
  child : Bool → Spawned

-- `watch`: what is done, and whether there is an iterator
unfoldable pub watch : Spawned → List ChildCall × Bool
watch Spawned.error = (ChildCall.spawn ∷ [], false)
watch (Spawned.child true) = (ChildCall.spawn ∷ [], true)
watch (Spawned.child false) = (ChildCall.spawn ∷ ChildCall.kill ∷ ChildCall.wait ∷ [], false)

-- `Drop::drop` of the iterator
abbrev pub drop_calls : List ChildCall
drop_calls = ChildCall.kill ∷ ChildCall.wait ∷ []

-- The thread of `integrate_execsnoop`: the iterator is dropped when it has no more processes.
unfoldable pub watched : Spawned → List ChildCall
unfolding watch
watched spawned =
    let (calls, opened) = watch spawned in if opened then calls ++ drop_calls else calls

-- A child that was started is killed and waited for, with a pipe or without.
pub watched-child :
    (pipe : Bool)
    → watched (Spawned.child pipe) ≡ ChildCall.spawn ∷ ChildCall.kill ∷ ChildCall.wait ∷ []
unfolding watched
watched-child true = refl
watched-child false = refl
