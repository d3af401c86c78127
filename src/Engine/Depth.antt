-- ===== src/Engine/Depth.antt =====
-- With a depth of two, `Engine::execute` is never cut off.
use kuli.Common.{ℕ, suc, Bool, List, Option, none, some, Bytes}
use kuli.Json.{JsonApi, JsonMake}
use kuli.Store
use kuli.Engine.Value.{JsonText}
use kuli.Engine.Exec.{State, Run, Machine, spawn}
use kuli.Engine.Realize.{ended, stored}
use kuli.Engine.Run.{Call, write, open_session, execute}
use kuli.Engine.Keeps.{IsComplete, Keeps}
use kuli.Engine.Ends.{AreNamed-any}
use kuli.Engine.Calls.{execute-Kept}

-- Nothing is asked of the state.
abbrev Anywhere : {W : Type 0} → State W → State W → Type 0
Anywhere s t = Unit

abbrev Complete : {W A : Type 0} → Run W A → Type 0
Complete m = Keeps Anywhere (λ s. tt) (λ a b c h k. tt) m

-- The store reports its result, or that it read past a buffer.
pub ended-IsComplete : {A : Type 0} (o : Option A) → IsComplete (ended o)
ended-IsComplete none = tt
ended-IsComplete (some a) = tt

module _ {J W : Type 0} {json : JsonApi J} (make : JsonMake json) (io : JsonText J)
    (mc : Machine W) where
  spawn-Complete :
      (argv : List Bytes) (cwd : Bytes) (capture : Bool) (input : Bytes)
      → Complete (spawn mc argv cwd capture input)
  unfolding spawn
  spawn-Complete argv cwd capture input = record { holds = λ s. (tt, tt) }

  stored-Complete : (f : Store.Disk → Store.Outcome) → Complete {W = W} (stored f)
  unfolding stored
  stored-Complete f = record { holds = λ s. (tt, ended-IsComplete (f s.disk).1) }

  write-Complete : (path content : Bytes) → Complete (write mc path content)
  unfolding write
  write-Complete path content = record { holds = λ s. (tt, tt) }

  open-Complete : (cwd : Bytes) → Complete (open_session mc cwd)
  unfolding open_session
  open-Complete cwd = record { holds = λ s. (tt, tt) }

  -- Every call ends with a result, by an exception or in the store's over-read: with a depth of two
  -- or more, no call within a call is cut off.
  pub execute-IsComplete :
      (depth : ℕ) (call : Call J) (s : State W)
      → IsComplete (execute make io (suc (suc depth)) mc call s).1
  execute-IsComplete depth call s =
      ((execute-Kept make io mc Anywhere (λ s. tt) (λ a b c h k. tt) spawn-Complete
          (λ dir. Unit {0}) (λ hash16 name url bin sp fits. stored-Complete _)
          (λ dir hash files fits. stored-Complete _) write-Complete open-Complete depth call
          (AreNamed-any make io call.ir_doc)).holds
        s).1
