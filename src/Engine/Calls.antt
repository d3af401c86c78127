-- ===== src/Engine/Calls.antt =====
-- `Engine::execute` keeps what the calls that it makes keep. It calls itself for the stages of a
-- pipeline only, whose documents are commands: a depth of two is enough.
use kuli.Common.{ℕ, suc, Bool, List, Option, some, Bytes, ◌≡◌, refl, codes, same, ◌⊎◌, inl, inr}
use kuli.Diag.{Diagnostic, Expected, ok, err}
use kuli.Crypto.{HashSpec}
use kuli.Json.{JsonApi, JsonMake}
use kuli.Ir
use kuli.Store.{store_path, realize_fetch}
use kuli.Store.Inline.{realize_inline}
use kuli.Engine.Value.{JsonText, RawResult, json_value}
use kuli.Engine.Plan.{text_of}
use kuli.Engine.Stage.{stage_doc}
use kuli.Engine.Exec.{State, Run, ◌>>=◌, lift, Machine, spawn}
use kuli.Engine.Realize.{stored}
use kuli.Engine.Run.{Call, write, open_session, dispatch, execute_here, execute_valid, execute}
use kuli.Engine.Keeps.{Keeps, lift-Keeps, >>=-Keeps, >>=-known, if-Keeps}
use kuli.Engine.Ends.{AreNamed, execute_exec-Kept, route_remote-Kept, dispatch-Kept}

pub Expected-cases : (m : Expected (Unit {0})) → ((e : Diagnostic) × (m ≡ err e)) ⊎ (m ≡ ok tt)
Expected-cases (ok tt) = inr refl
Expected-cases (err e) = inl (e, refl)

module _ {J : Type 0} {json : JsonApi J} (make : JsonMake json) (io : JsonText J) where
  -- The kind of a stage's document.
  stage_kind :
      (s place cmd : J) (input : Bytes)
      → text_of make io (stage_doc make s input place cmd) (codes "kind") ≡ some (codes "Exec")
  unfolding stage_doc json_value same codes
  stage_kind s place cmd input = rw (
    json_value,
    make.object_is_object,
    make.object_contains,
    make.object_at _ (codes "kind") (make.string (codes "Exec")) refl,
    make.string_is_string,
    make.string_text,
  )

module _ {J W : Type 0} {json : JsonApi J} (make : JsonMake json) (io : JsonText J) (mc : Machine W)
    (R : State W → State W → Type 0) (same_state : (s : State W) → R s s)
    (chain : (a b c : State W) → R a b → R b c → R a c)
    (spawned : (argv : List Bytes) (cwd : Bytes) (capture : Bool) (input : Bytes)
      → Keeps R same_state chain (spawn mc argv cwd capture input))
    (Fits : Bytes → Type 0)
    (fetched : (hash16 name url bin : Bytes) (sp : HashSpec)
      → Fits (store_path hash16 name)
      → Keeps R same_state chain (stored (λ d. realize_fetch mc.store d hash16 name url sp bin)))
    (inlined : (dir hash : Bytes) (files : List (Bytes × Bytes))
      → Fits dir
      → Keeps R same_state chain (stored (λ d. realize_inline mc.store d dir hash files)))
    (written : (path content : Bytes) → Keeps R same_state chain (write mc path content))
    (opened : (cwd : Bytes) → Keeps R same_state chain (open_session mc cwd)) where
  abbrev Kept : {A : Type 0} → Run W A → Type 0
  Kept m = Keeps R same_state chain m

  bind :
      {A B : Type 0} (m : Run W A) (f : A → Run W B)
      → Kept m
      → ((a : A) → Kept (f a))
      → Kept (m >>= f)
  bind = >>=-Keeps R same_state chain

  known : {A : Type 0} (o : Option A) → Kept (lift {W = W} {A = A} o)
  known = lift-Keeps R same_state chain

  here-Kept :
      (run_sub : J → Run W RawResult) (call : Call J)
      → ((s place cmd : J) (input : Bytes) → Kept (run_sub (stage_doc make s input place cmd)))
      → AreNamed Fits make io call.ir_doc
      → Kept (execute_here make io mc run_sub call)
  unfolding execute_here
  here-Kept run_sub call h named = bind _ _ (known _) λ options. bind _ _ (known _) λ dry_run.
      bind _ _ (known _) λ kind. bind _ _ (known _) λ node.
        dispatch-Kept make io mc R same_state chain dry_run Fits (λ e. spawned) (λ e. fetched)
          (λ e. inlined) written opened run_sub (λ e. h) call kind node named

  -- A command makes no call within the call.
  exec-Kept :
      (run_sub : J → Run W RawResult) (call : Call J)
      → text_of make io call.ir_doc (codes "kind") ≡ some (codes "Exec")
      → Kept (execute_here make io mc run_sub call)
  unfolding execute_here dispatch same codes
  exec-Kept run_sub call e = bind _ _ (known _) λ options. bind _ _ (known _) λ dry_run. rw e (
      >>=-known R same_state chain (codes "Exec") _ (
        bind _ _ (known _) λ node.
          execute_exec-Kept make io mc R same_state chain dry_run (λ e. spawned) node call.cwd))

  valid-Kept :
      (run_sub : J → Run W RawResult) (call : Call J)
      → Kept (execute_here make io mc run_sub call)
      → Kept (execute_valid make io mc run_sub call)
  unfolding execute_valid
  valid-Kept run_sub call h = bind _ _ (known _) λ node. bind _ _ (known _) λ place.
      if-Keeps R same_state chain _ _ _
        (route_remote-Kept make io mc R same_state chain spawned call.ir_doc call.cwd place) h

  step-Kept :
      (depth : ℕ) (call : Call J)
      → ((run_sub : J → Run W RawResult)
          → run_sub ≡ (λ doc. execute make io depth mc (record call { ir_doc = doc }))
          → Kept (execute_here make io mc run_sub call))
      → Kept (execute make io (suc depth) mc call)
  unfolding execute
  step-Kept depth call h = elim (Expected-cases (Ir.validate json call.ir_doc)) [
    | inl (e, bad) ↦ record { holds = λ s. rw (execute, bad) (same_state s, tt) }
    | inr good ↦ record { holds = λ s. rw (execute, good) ((valid-Kept _ call (h _ refl)).holds s) }
  ]

  stage-Kept :
      (depth : ℕ) (call : Call J) (s place cmd : J) (input : Bytes)
      → Kept (
          execute make io
            (suc depth)
            mc
            (record call { ir_doc = stage_doc make s input place cmd }))
  stage-Kept depth call s place cmd input =
      step-Kept depth _ (λ run_sub e. exec-Kept run_sub _ (stage_kind make io s place cmd input))

  -- A call with a depth of two or more.
  pub execute-Kept :
      (depth : ℕ) (call : Call J)
      → AreNamed Fits make io call.ir_doc
      → Kept (execute make io (suc (suc depth)) mc call)
  execute-Kept depth call named = step-Kept (suc depth) call λ run_sub e.
      rw e (here-Kept _ call (λ s place cmd input. stage-Kept depth call s place cmd input) named)
