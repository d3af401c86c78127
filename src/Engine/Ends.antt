-- ===== src/Engine/Ends.antt =====
-- Every handler of the engine ends, and keeps what the calls that it makes keep.
use kuli.Common.{
  ℕ, ◌+◌, Bool, true, false, List, [], ◌∷◌, Option, none, some, if◌then◌else◌, Bytes, ◌≡◌, refl,
  codes, same, take, All, subst,
}
use kuli.Crypto.{HashSpec, parse}
use kuli.Store.{store_path, realize_fetch}
use kuli.Store.Inline.{realize_inline}
use kuli.Json.{JsonApi, JsonMake}
use kuli.Engine.Value.{JsonText, RawResult}
use kuli.Engine.Stage.{stage_doc, member_at}
use kuli.Engine.Plan.{text_of}
use kuli.Engine.Exec.{
  State, Run, ◌>>=◌, ◌>>◌, return, lift, Machine, spawn, Flow, launch, exec_argv, execute_exec,
  run_stages, run_pipeline, list_pipeline, execute_pipeline,
}
use kuli.Engine.Transport.{relay, route_to, route_remote}
use kuli.Engine.Remote.{Resolved, link, refused}
use kuli.Engine.Realize.{
  Progress, proceed, stop, stored, fetch_digest, fetch_step, inline_files, scripture_step,
  deriv_step,
}
use kuli.Engine.Run.{
  Call, Session, write, open_session, write_step, finish, realize_all, preview_run, execute_apply,
  dispatch, reads,
}
use kuli.Engine.Keeps.{
  Keeps, return-Keeps, lift-Keeps, lift->>=-Keeps, >>=-Keeps, >>-Keeps, if-Keeps,
}

-- The two directories that the store may make for a derivation.
pub record IsNamed (Fits : Bytes → Type 0) {J : Type 0} {json : JsonApi J} (make : JsonMake json)
    (io : JsonText J) (d : J) : Type 0 where
  pub fetch_dir :
      (name hash : Bytes)
      → text_of make io d (codes "name") ≡ some name
      → text_of make io d (codes "hash") ≡ some hash
      → Fits (store_path (take 16 hash) name)
  pub scripture_dir : (dir : Bytes) → text_of make io d (codes "storePath") ≡ some dir → Fits dir

-- Those of the derivations of a document.
abbrev pub AreNamed :
    (Fits : Bytes → Type 0) {J : Type 0} {json : JsonApi J} (make : JsonMake json) (io : JsonText J)
    → J
    → Type 0
AreNamed Fits {json = json} make io doc =
    (node listed : _)
    → member_at json doc (codes "node") ≡ some node
    → member_at json node (codes "derivations") ≡ some listed
    → All (IsNamed Fits make io) (json.elements listed)

pub AreNamed-known :
    (Fits : Bytes → Type 0) {J : Type 0} {json : JsonApi J} (make : JsonMake json) (io : JsonText J)
    (doc node listed : J)
    → member_at json doc (codes "node") ≡ some node
    → member_at json node (codes "derivations") ≡ some listed
    → All (IsNamed Fits make io) (json.elements listed)
    → AreNamed Fits make io doc
AreNamed-known Fits {json = json} make io doc node listed e f h node' listed' e' f' =
    let n : node ≡ node' = cc (e, e') in
    let l : listed ≡ listed' = cc (f, f', n) in
    subst (λ x. All (IsNamed Fits make io) (json.elements x)) l h

-- Where nothing is asked of a directory.
pub AreNamed-any :
    {J : Type 0} {json : JsonApi J} (make : JsonMake json) (io : JsonText J) (doc : J)
    → AreNamed (λ dir. Unit {0}) make io doc
AreNamed-any {json = json} make io doc node listed e f = every (json.elements listed)
  where
    every : (ds : List _) → All (IsNamed (λ dir. Unit {0}) make io) ds
    every [] = tt
    every (d ∷ ds) =
        (record { fetch_dir = λ name hash e f. tt; scripture_dir = λ dir e. tt }, every ds)

module _ {J W : Type 0} {json : JsonApi J} (make : JsonMake json) (io : JsonText J) (mc : Machine W)
    (R : State W → State W → Type 0) (same_state : (s : State W) → R s s)
    (chain : (a b c : State W) → R a b → R b c → R a c) where
  abbrev pub Kept : {A : Type 0} → Run W A → Type 0
  Kept = Keeps R same_state chain

  bind :
      {A B : Type 0} (m : Run W A) (f : A → Run W B)
      → Kept m
      → ((a : A) → Kept (f a))
      → Kept (m >>= f)
  bind = >>=-Keeps R same_state chain

  look :
      {A B : Type 0} (o : Option A) (f : A → Run W B)
      → ((a : A) → o ≡ some a → Kept (f a))
      → Kept (lift o >>= f)
  look = lift->>=-Keeps R same_state chain

  give : {A : Type 0} (a : A) → Kept (return {W = W} {A = A} a)
  give = return-Keeps R same_state chain

  known : {A : Type 0} (o : Option A) → Kept (lift {W = W} {A = A} o)
  known = lift-Keeps R same_state chain

  next : {A B : Type 0} (m : Run W A) (k : Run W B) → Kept m → Kept k → Kept (m >> k)
  next = >>-Keeps R same_state chain

  branch : {A : Type 0} (b : Bool) (m n : Run W A) → Kept m → Kept n → Kept (if b then m else n)
  branch = if-Keeps R same_state chain

  module _
      (spawned : (argv : List Bytes) (cwd : Bytes) (capture : Bool) (input : Bytes)
        → Kept (spawn mc argv cwd capture input)) where
    launch-Kept :
        (node : J) (cwd : Bytes) (argv : List Bytes) → Kept (launch make io mc node cwd argv)
    unfolding launch
    launch-Kept node cwd argv =
        bind _ _ (known _) λ capture.
          bind _ _ (known _) λ stdin. bind _ _ (spawned argv _ capture stdin) λ pr. give _

    pub route_remote-Kept :
        (doc : J) (cwd place : Bytes) → Kept (route_remote make io mc doc cwd place)
    unfolding route_remote route_to relay
    route_remote-Kept doc cwd place = record {
      holds = λ s. (bind _ _ (known _) (λ r. to_Kept r)).holds s;
    }
      where
        to_Kept : (r : Resolved) → Kept (route_to make io mc doc cwd r)
        to_Kept (refused d) = give _
        to_Kept (link l) = branch _ _ _ (give _) (bind _ _ (spawned _ cwd true _) λ pr. give _)

  -- A dry run spawns nothing.
  module _ (dry_run : Bool)
      (spawned : dry_run ≡ false
        → (argv : List Bytes) (cwd : Bytes) (capture : Bool) (input : Bytes)
        → Kept (spawn mc argv cwd capture input)) where
    exec_argv-Kept :
        (b : Bool)
        → dry_run ≡ b
        → (node : J) (cwd : Bytes) (argv : List Bytes) → Kept (exec_argv make io mc node cwd b argv)
    unfolding exec_argv
    exec_argv-Kept b e node cwd [] = give _
    exec_argv-Kept true e node cwd (a ∷ argv) = give _
    exec_argv-Kept false e node cwd (a ∷ argv) = launch-Kept (spawned e) node cwd (a ∷ argv)

    pub execute_exec-Kept :
        (node : J) (cwd : Bytes) → Kept (execute_exec make io mc node cwd dry_run)
    unfolding execute_exec
    execute_exec-Kept node cwd = bind _ _ (known _) λ local.
        branch _ _ _ (give _) (bind _ _ (known _) λ argv. exec_argv-Kept dry_run refl node cwd argv)

  -- The calls on the documents of stages keep the state.
  abbrev pub StagesKept : (J → Run W RawResult) → Type 0
  StagesKept run_sub =
      (s place cmd : J) (input : Bytes) → Kept (run_sub (stage_doc make s input place cmd))

  run_stages-Kept :
      (run_sub : J → Run W RawResult)
      → StagesKept run_sub
      → (stages : List J) (flow : Flow) → Kept (run_stages make io run_sub stages flow)
  unfolding run_stages
  run_stages-Kept run_sub h [] flow = give _
  run_stages-Kept run_sub h (s ∷ stages) flow = bind _ _ (known _) λ place.
      bind _ _ (known _)
        λ cmd. bind _ _ (h s _ cmd flow.text) λ sr. run_stages-Kept run_sub h stages _

  execute_pipeline-Kept :
      (run_sub : J → Run W RawResult) (dry_run : Bool)
      → (dry_run ≡ false → StagesKept run_sub)
      → (node : J) → Kept (execute_pipeline make io node dry_run run_sub)
  unfolding execute_pipeline run_pipeline list_pipeline
  execute_pipeline-Kept run_sub true h node =
      bind _ _ (known _) λ stages. bind _ _ (known _) λ listing. give _
  execute_pipeline-Kept run_sub false h node =
      bind _ _ (known _) λ stages. bind _ _ (run_stages-Kept run_sub (h refl) _ _) λ flow. give _

  module _ (Fits : Bytes → Type 0)
      (fetched : (hash16 name url bin : Bytes) (sp : HashSpec)
        → Fits (store_path hash16 name)
        → Kept (stored (λ d. realize_fetch mc.store d hash16 name url sp bin)))
      (inlined : (dir hash : Bytes) (files : List (Bytes × Bytes))
        → Fits dir
        → Kept (stored (λ d. realize_inline mc.store d dir hash files))) where
    fetch_digest-Kept :
        (hash16 name url bin : Bytes) (r : RawResult) (sp : Option HashSpec)
        → Fits (store_path hash16 name)
        → Kept (fetch_digest make io mc hash16 name url bin r sp)
    unfolding fetch_digest
    fetch_digest-Kept hash16 name url bin r none fits = give _
    fetch_digest-Kept hash16 name url bin r (some sp) fits =
        bind _ _ (fetched hash16 name url bin sp fits) λ fr. give _

    fetch_step-Kept :
        (d : J) (name hash16 : Bytes) (r : RawResult)
        → Fits (store_path hash16 name)
        → Kept (fetch_step make io mc d name hash16 r)
    unfolding fetch_step
    fetch_step-Kept d name hash16 r fits = bind _ _ (known _) λ fetch. bind _ _ (known _) λ url.
        bind _ _ (known _) λ sha.
          bind _ _ (known _)
            λ bin. branch _ _ _ (give _) (fetch_digest-Kept hash16 name url bin r (parse sha) fits)

    inline_files-Kept : (fs : List J) → Kept (inline_files make io fs)
    unfolding inline_files
    inline_files-Kept [] = give _
    inline_files-Kept (f ∷ fs) =
        bind _ _ (known _)
          λ path. bind _ _ (known _) λ content. bind _ _ (inline_files-Kept fs) λ more. give _

    scripture_step-Kept :
        (d : J) (name hash : Bytes) (r : RawResult)
        → IsNamed Fits make io d
        → Kept (scripture_step make io mc d name hash r)
    unfolding scripture_step
    scripture_step-Kept d name hash r named = bind _ _ (known _) λ sc. look _ _ λ dir e.
        bind _ _ (known _) λ listed. bind _ _ (inline_files-Kept listed) λ files.
          bind _ _ (known _) λ version.
            bind _ _ (known _)
              λ basenames. bind _ _ (inlined dir hash _ (named.scripture_dir dir e)) λ sr. give _

    deriv_step-Kept :
        (d : J) (r : RawResult) → IsNamed Fits make io d → Kept (deriv_step make io mc d r)
    unfolding deriv_step
    deriv_step-Kept d r named = bind _ _ (known _) λ builder. look _ _ λ name e. look _ _ λ hash f.
        branch _ _ _ (fetch_step-Kept d name _ r (named.fetch_dir name hash e f))
          (branch _ _ _ (scripture_step-Kept d name hash r named) (give _))

    module _ (written : (path content : Bytes) → Kept (write mc path content))
        (opened : (cwd : Bytes) → Kept (open_session mc cwd)) where
      write_step-Kept :
          (session : Session) (d : J) (n : ℕ) (more : List (Bytes × J))
          → Kept (write_step make io mc session d n more)
      unfolding write_step
      write_step-Kept session d n more =
          bind _ _ (known _)
            λ builder. bind _ _ (known _) λ name. bind _ _ (known _) λ hash. written _ _

      realize_all-Kept :
          (session : Session) (ds : List J) (n : ℕ) (r : RawResult)
          → All (IsNamed Fits make io) ds
          → Kept (realize_all make io mc session ds n r)
      unfolding realize_all finish
      realize_all-Kept session [] n r h = next _ _ (written _ _) (give _)
      realize_all-Kept session (d ∷ ds) n r h =
          bind _ _ (deriv_step-Kept d r h.0)
            λ p. after_Kept p (λ r'. realize_all-Kept session ds (n + 1) r' h.1)
        where
          after_Kept :
              (p : Progress J)
              → ((r' : RawResult) → Kept (realize_all make io mc session ds (n + 1) r'))
              → Kept (elim p as (λ _. Run W RawResult) [
                | stop r' ↦ return r'
                | proceed r' more ↦
                    write_step make io mc session d n more
                    >> realize_all make io mc session ds (n + 1) r'
              ])
          after_Kept (stop r') h = give _
          after_Kept (proceed r' more) h = next _ _ (write_step-Kept session d n more) (h r')

  -- A dry run realizes nothing.
  module _ (dry_run : Bool) (Fits : Bytes → Type 0)
      (spawned : dry_run ≡ false
        → (argv : List Bytes) (cwd : Bytes) (capture : Bool) (input : Bytes)
        → Kept (spawn mc argv cwd capture input))
      (fetched : dry_run ≡ false
        → (hash16 name url bin : Bytes) (sp : HashSpec) → Fits (store_path hash16 name)
        → Kept (stored (λ d. realize_fetch mc.store d hash16 name url sp bin)))
      (inlined : dry_run ≡ false
        → (dir hash : Bytes) (files : List (Bytes × Bytes)) → Fits dir
        → Kept (stored (λ d. realize_inline mc.store d dir hash files)))
      (written : (path content : Bytes) → Kept (write mc path content))
      (opened : (cwd : Bytes) → Kept (open_session mc cwd)) where
    finished :
        (b : Bool)
        → dry_run ≡ b
        → (session : Session) (ds plan : List J) (r : RawResult) → All (IsNamed Fits make io) ds
        → Kept (
            if b
            then preview_run make io mc session ds plan
            else realize_all make io mc session ds 0 r)
    unfolding preview_run
    finished true e session ds plan r h = bind _ _ (known _) λ ls. next _ _ (written _ _) (give _)
    finished false e session ds plan r h =
        realize_all-Kept Fits (fetched e) (inlined e) written opened session ds 0 r h

    execute_apply-Kept :
        (call : Call J)
        → AreNamed Fits make io call.ir_doc
        → Kept (execute_apply make io mc call dry_run)
    unfolding execute_apply
    execute_apply-Kept call named = bind _ _ (opened call.cwd) λ session. next _ _ (written _ _) (
        next _ _ (written _ _) (
          look _ _ λ node e. look _ _ λ listed f. bind _ _ (known _) λ plan.
            next _ _ (written _ _)
              (finished dry_run refl session _ plan _ (named node listed e f))))

    reads-Kept : {A : Type 0} (f : State W → Option A) → Kept (reads f)
    unfolding reads
    reads-Kept f = record { holds = λ s. (known (f s)).holds s }

    pub dispatch-Kept :
        (run_sub : J → Run W RawResult)
        → (dry_run ≡ false → StagesKept run_sub)
        → (call : Call J) (kind : Bytes) (node : J) → AreNamed Fits make io call.ir_doc
        → Kept (dispatch make io mc run_sub call dry_run kind node)
    unfolding dispatch
    dispatch-Kept run_sub h call kind node named =
        branch (same kind (codes "FileQuery")) _ _ (reads-Kept _) (
          branch (same kind (codes "TextSearch")) _ _ (reads-Kept _) (
            branch (same kind (codes "ProcessQuery")) _ _ (reads-Kept _) (
              branch (same kind (codes "NetworkQuery")) _ _ (reads-Kept _) (
                branch (same kind (codes "HostFacts")) _ _ (reads-Kept _) (
                  branch (same kind (codes "EnvQuery")) _ _ (reads-Kept _) (
                    branch (same kind (codes "Exec")) _ _
                      (execute_exec-Kept dry_run spawned node call.cwd)
                      (branch (same kind (codes "Pipeline")) _ _
                        (execute_pipeline-Kept run_sub dry_run h node)
                        (execute_apply-Kept call named))))))))
