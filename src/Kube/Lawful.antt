-- ===== src/Kube/Lawful.antt =====
-- What the operator relies on in the cluster, while no one else writes to it.
use workshop_operator.Prelude.{◌≡◌, ◌≢◌, Bool, true, false, none, some, List, String, elem}
use workshop_operator.Kube.Object.{
  Object, Ref, ref, Kind, namespace, workshop, persistent_volume_claim, custom_resource_definition,
  argo_cd, service_mesh_control_plane, service_mesh_member_roll, kiali, kind_of,
}
use workshop_operator.Kube.Env.{Env, already_exists, not_found, failed}

-- Objects of these kinds stay for a while after a delete is accepted: they have finalizers.
abbrev pub lingers : Kind → Bool
lingers namespace = true
lingers persistent_volume_claim = true
lingers custom_resource_definition = true
lingers argo_cd = true
lingers service_mesh_control_plane = true
lingers service_mesh_member_roll = true
lingers kiali = true
lingers _ = false

-- With an object of these kinds others go: the contents of a namespace, the resources of a definition.
abbrev pub takes_others : Kind → Bool
takes_others namespace = true
takes_others custom_resource_definition = true
takes_others _ = false

module _ (env : Env) where
  open env use {World, create, update, delete, get}

  pub record IsLawful : Type 0 where
    -- Is there an object at this place?
    pub present : World → Ref → Bool
    pub create_stores :
        (o : Object) (w : World) → (create o w).0 ≡ none → present (create o w).1 (ref o) ≡ true
    pub create_conflict :
        (o : Object) (w : World)
        → (create o w).0 ≡ some already_exists
        → present (create o w).1 (ref o) ≡ true
    pub create_keeps :
        (o : Object) (w : World) (r : Ref) → present w r ≡ true → present (create o w).1 r ≡ true
    pub create_adds_only :
        (o : Object) (w : World) (r : Ref)
        → r ≢ ref o
        → present w r ≡ false
        → present (create o w).1 r ≡ false
    pub delete_needs : (o : Object) (w : World) → (delete o w).0 ≡ none → present w (ref o) ≡ true
    pub delete_removes :
        (o : Object) (w : World)
        → lingers (kind_of o.spec) ≡ false
        → (delete o w).0 ≡ none
        → present (delete o w).1 (ref o) ≡ false
    pub delete_adds_nothing :
        (o : Object) (w : World) (r : Ref) → present w r ≡ false → present (delete o w).1 r ≡ false
    pub delete_keeps :
        (o : Object) (w : World) (r : Ref)
        → takes_others (kind_of o.spec) ≡ false
        → r ≢ ref o
        → present w r ≡ true
        → present (delete o w).1 r ≡ true
    pub update_keeps :
        (o : Object) (w : World) (r : Ref) → r ≢ ref o → present (update o w).1 r ≡ present w r
    -- An update removes an object that is being deleted when it takes its last finalizer away. The
    -- code does so to a workshop only: it writes any other object back with the finalizers that it
    -- has read, or it is of a kind that does not linger.
    pub update_keeps_present :
        (o : Object) (w : World) (r : Ref)
        → kind_of o.spec ≢ workshop
        → present (update o w).1 r ≡ present w r
    -- The owner of an object is no part of its name.
    pub owner_keeps_ref : (owner o : Object) → ref (env.set_controller_reference owner o) ≡ ref o
    -- What a read answers is left open: the client of the manager reads from a cache, which can be
    -- behind what was written.
    pub get_keeps : (q : Ref) (w : World) (r : Ref) → present (get q w).1 r ≡ present w r
    pub list_keeps : (s : _) (w : World) (r : Ref) → present (env.list_users s w).1 r ≡ present w r
    pub bash_keeps : (c : String) (w : World) (r : Ref) → present (env.bash c w).1 r ≡ present w r
    pub watch_keeps :
        (name namespace_name : String) (w : World) (r : Ref)
        → present (env.watch_deployment name namespace_name w).1 r ≡ present w r
    pub stop_keeps : (w : World) (r : Ref) → present (env.stop_watch w).1 r ≡ present w r
    pub ready_keeps :
        (name namespace_name : String) (w : World) (r : Ref)
        → present (env.ready_replicas name namespace_name w).1 r ≡ present w r
    -- A service that answers requests holds no objects of the cluster.
    pub send_keeps : (q : _) (w : World) (r : Ref) → present (env.send q w).1 r ≡ present w r
    pub bcrypt_keeps :
        (password : String) (w : World) (r : Ref)
        → present (env.bcrypt password w).1 r ≡ present w r
    -- A patch may take the last finalizer of an object away.
    pub patch_adds_nothing :
        (original o : Object) (w : World) (r : Ref)
        → present w r ≡ false
        → present (env.patch original o w).1 r ≡ false
    pub range_keeps :
        (ks : List String) (w : World) (r : Ref) → present (env.range_keys ks w).1 r ≡ present w r
    -- A `range` visits the keys of the map, all of them.
    pub range_elem :
        (ks : List String) (w : World) (k : String) → elem k (env.range_keys ks w).0 ≡ elem k ks

  -- A read of an object that is not there answers so. A cache that is behind would not: this describes
  -- a client that reads from the cluster.
  abbrev pub AnswersReads : IsLawful → Type 0
  AnswersReads law =
      (r : Ref) (w : World) → law.present w r ≡ false → (get r w).0 ≡ failed not_found
