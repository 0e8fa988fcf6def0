-- ===== src/Kube/Env.antt =====
-- What the operator calls and does not implement: the client of controller-runtime, which speaks
-- to the cluster, the shell, and the order in which Go's runtime ranges over a map.
use workshop_operator.Prelude.{ℕ, String, Option, List, StringMap}
use workshop_operator.Kube.Object.{Object, Ref}

-- The errors that the operator tells apart, by `errors.IsAlreadyExists` and `errors.IsNotFound`.
pub data Error : Type 0 where
  already_exists not_found : Error
  other : String → Error

pub data Got : Type 0 where
  found : Object → Got
  failed : Error → Got

pub data Listed : Type 0 where
  items : List Object → Listed
  list_failed : Error → Listed

-- The output of a command, and whether it failed.
pub record Ran : Type 0 where
  pub output : String
  pub error : Option String

-- An event of a watch on one deployment; a change carries the replicas that are ready, unless its
-- object is no deployment.
pub data WatchEvent : Type 0 where
  modified : (ready_replicas : ℕ) → WatchEvent
  watch_error other_event modified_unexpected : WatchEvent

pub record HttpRequest : Type 0 where
  pub method : String
  pub url : String
  pub headers : StringMap String
  pub body : String

pub data HttpAnswer : Type 0 where
  status_code : ℕ → HttpAnswer
  http_failed : Error → HttpAnswer

pub record Env : Type 1 where
  pub World : Type 0
  pub create : Object → World → Option Error × World
  pub update : Object → World → Option Error × World
  pub delete : Object → World → Option Error × World
  pub get : Ref → World → Got × World
  -- `labels.Parse`, and a list of the users that a selector picks (all of them without one)
  pub parse_selector : String → Option String
  pub list_users : Option String → World → Listed × World
  -- `exec.Command("/bin/bash", "-c", command).Output()`
  pub bash : String → World → Ran × World
  -- the order of one `range` over the keys of a map
  pub range_keys : List String → World → List String × World
  -- `ctrl.SetControllerReference(owner, object, scheme)`
  pub set_controller_reference : Object → Object → Object
  -- The events of a watch on a deployment until its channel is closed, or no watch at all.
  pub watch_deployment : (name namespace_name : String) → World → Option (List WatchEvent) × World
  -- `watcher.Stop()`: how many events the channel still hands out, those that were on their way
  pub stop_watch : World → ℕ × World
  -- `Deployments(namespace).Get(name)`: the ready replicas in the status of what it finds
  pub ready_replicas : (name namespace_name : String) → World → Option ℕ × World
  -- `client.Do(request)`
  pub send : HttpRequest → World → HttpAnswer × World
  -- `bcrypt.GenerateFromPassword`, with a salt of its own each time
  pub bcrypt : (password : String) → World → Option String × World
  -- `r.Patch(ctx, object, client.MergeFrom(original))`
  pub patch : (original object : Object) → World → Option Error × World
