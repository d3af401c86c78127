-- ===== src/Engine/WriteOnce.antt =====
-- `Engine::execute` as a whole leaves what the store has published.
use kuli.Common.{true, ◌≡◌}
use kuli.Json.{JsonApi, JsonMake}
use kuli.Store.WriteOnce.{Grows}
use kuli.Engine.Value.{JsonText}
use kuli.Engine.Exec.{State, Machine}
use kuli.Store.{is_component}
use kuli.Engine.Ends.{AreNamed}

-- The directories that the store may make for the derivations of the document have names of one
-- component each.
abbrev pub HasComponents :
    {J : Type 0} {json : JsonApi J} (make : JsonMake json) (io : JsonText J) → J → Type 0
HasComponents make io doc = AreNamed (λ dir. is_component dir ≡ true) make io doc

module _ {J W : Type 0} {json : JsonApi J} (make : JsonMake json) (io : JsonText J)
    (mc : Machine W) where
  abbrev StoreGrows : State W → State W → Type 0
  StoreGrows s t = Grows s.disk t.disk
