-- ===== src/Engine/DryRun.antt =====
-- What a dry run does to the machine.
use kuli.Common.{
  ℕ, suc, true, false, not, ◌&&◌, Option, some, Bytes, ◌≡◌, refl, ◌∙◌, ap, codes, is_empty, inl,
  inr,
}
use kuli.Json.{JsonApi, JsonMake}
use kuli.Ir
use kuli.Engine.Value.{JsonText, RawResult, value_string, value_boolean}
use kuli.Engine.Search.{is_local}
use kuli.Engine.Plan.{object_of}
use kuli.Engine.Exec.{State, Run, ◌>>=◌, lift, Machine}
use kuli.Engine.Run.{Call, write, open_session, dispatch, execute_here, execute_valid, execute}
use kuli.Engine.Keeps.{Keeps, lift-Keeps, >>=-Keeps, >>=-known}
use kuli.Engine.Ends.{AreNamed-any, dispatch-Kept}
use kuli.Engine.Calls.{Expected-cases}

-- From `s`, directories were made and files written, outside the store; nothing else happened.
pub data Written {W : Type 0} (mc : Machine W) (s : State W) : State W → Type 0 where
  nothing : {u : State W} → u ≡ s → Written mc s u
  file :
      {u : State W} (t : State W) (path content : Bytes)
      → Written mc s t
      → u ≡ record t { world = mc.write_file path content t.world }
      → Written mc s u
  directory :
      {u : State W} (t : State W) (path : Bytes)
      → Written mc s t
      → u ≡ record t { world = mc.create_directories path t.world }
      → Written mc s u

pub Written-disk : {W : Type 0} (mc : Machine W) (s u : State W) → Written mc s u → u.disk ≡ s.disk
Written-disk mc s u (nothing e) = ap (λ (x : State _). x.disk) e
Written-disk mc s u (file t path content w e) =
    ap (λ (x : State _). x.disk) e ∙ Written-disk mc s t w
Written-disk mc s u (directory t path w e) = ap (λ (x : State _). x.disk) e ∙ Written-disk mc s t w

Written-trans :
    {W : Type 0} (mc : Machine W) (a b c : State W)
    → Written mc a b
    → Written mc b c
    → Written mc a c
Written-trans mc a b c h (nothing e) = rw e h
Written-trans mc a b c h (file t path content w e) =
    file t path content (Written-trans mc a b t h w) e
Written-trans mc a b c h (directory t path w e) = directory t path (Written-trans mc a b t h w) e

module _ {J : Type 0} {json : JsonApi J} (make : JsonMake json) (io : JsonText J) where
  -- The options of the document ask for a dry run, and its node is to be run here.
  pub record IsDryRun (doc : J) : Type 0 where
    pub options : J
    pub has_options : object_of make io doc (codes "options") ≡ some options
    pub dry : value_boolean json io options (codes "dry_run") false ≡ some true
    pub node : J
    pub has_node : object_of make io doc (codes "node") ≡ some node
    pub place : Bytes
    pub placed : value_string json io node (codes "at") (codes "local:") ≡ some place
    pub near : (not (is_local place) && not (is_empty place)) ≡ false

module _ {J W : Type 0} {json : JsonApi J} (make : JsonMake json) (io : JsonText J)
    (mc : Machine W) where
  abbrev WritesOnly : {A : Type 0} → Run W A → Type 0
  WritesOnly m = Keeps (Written mc) (λ s. nothing refl) (Written-trans mc) m

  write-WritesOnly : (path content : Bytes) → WritesOnly (write mc path content)
  unfolding write
  write-WritesOnly path content = record {
    holds = λ s. (file s path content (nothing refl) refl, tt);
  }

  open-WritesOnly : (cwd : Bytes) → WritesOnly (open_session mc cwd)
  unfolding open_session
  open-WritesOnly cwd = record { holds = λ s. (directory s _ (nothing refl) refl, tt) }

  known : {A : Type 0} (o : Option A) → WritesOnly (lift {W = W} {A = A} o)
  known = lift-Keeps (Written mc) (λ s. nothing refl) (Written-trans mc)

  bind :
      {A B : Type 0} (m : Run W A) (f : A → Run W B)
      → WritesOnly m
      → ((a : A) → WritesOnly (f a))
      → WritesOnly (m >>= f)
  bind = >>=-Keeps (Written mc) (λ s. nothing refl) (Written-trans mc)

  at_hand :
      {A B : Type 0} (o : Option A) (a : A) (f : A → Run W B)
      → o ≡ some a
      → WritesOnly (f a)
      → WritesOnly (lift o >>= f)
  at_hand o a f e h = rw e (>>=-known (Written mc) (λ s. nothing refl) (Written-trans mc) a f h)

  dispatch-WritesOnly :
      (run_sub : J → Run W RawResult) (call : Call J) (kind : Bytes) (node : J)
      → WritesOnly (dispatch make io mc run_sub call true kind node)
  dispatch-WritesOnly run_sub call kind node =
      dispatch-Kept make io mc (Written mc) (λ s. nothing refl) (Written-trans mc) true
        (λ dir. Unit {0}) (λ e. absurd (cc e)) (λ e. absurd (cc e)) (λ e. absurd (cc e))
        write-WritesOnly open-WritesOnly run_sub (λ e. absurd (cc e)) call kind node
        (AreNamed-any make io call.ir_doc)

  here-WritesOnly :
      (run_sub : J → Run W RawResult) (call : Call J)
      → IsDryRun make io call.ir_doc
      → WritesOnly (execute_here make io mc run_sub call)
  unfolding execute_here
  here-WritesOnly run_sub call d = at_hand _ d.options _ d.has_options (
      at_hand _ true _ d.dry (
        bind _ _ (known _)
          λ kind. bind _ _ (known _) λ node. dispatch-WritesOnly run_sub call kind node))

  valid-WritesOnly :
      (run_sub : J → Run W RawResult) (call : Call J)
      → IsDryRun make io call.ir_doc
      → WritesOnly (execute_valid make io mc run_sub call)
  unfolding execute_valid
  valid-WritesOnly run_sub call d =
      at_hand _ d.node _ d.has_node
        (at_hand _ d.place _ d.placed (rw d.near (here-WritesOnly run_sub call d)))

  -- A dry run of a document, valid or not, whose node is to be run here, that is, whose `at` is missing,
  -- empty, `local` or `local:`, starts no process and leaves the store and the download cache alone: it
  -- makes directories and writes files outside the store, and no more. Of a node at another place, which
  -- is sent there before `dry_run` is read, nothing is said.
  pub execute-Written :
      (depth : ℕ) (call : Call J) (s : State W)
      → IsDryRun make io call.ir_doc
      → Written mc s (execute make io (suc depth) mc call s).0
        × ((execute make io (suc depth) mc call s).0.disk ≡ s.disk)
  unfolding execute
  execute-Written depth call s d = (writes, Written-disk mc s _ writes)
    where
      writes : Written mc s (execute make io (suc depth) mc call s).0
      writes = elim (Expected-cases (Ir.validate json call.ir_doc)) [
        | inl (e, bad) ↦ rw (execute, bad) (nothing refl)
        | inr good ↦ rw (execute, good) ((valid-WritesOnly _ call d).holds s).0
      ]
