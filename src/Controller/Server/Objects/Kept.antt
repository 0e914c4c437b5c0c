-- ===== src/Controller/Server/Objects/Kept.antt =====
-- What the create-or-update tail of internal/controller/nginxserver_controller.go leaves behind, for
-- any kind of object.
use nginx_operator.Base.{
  [], ◌∷◌, ◌∙◌, subst, Result, err, ok, ◌≡◌, refl, String, Bool, true, false, Option, none,
  if◌then◌else◌,
}
use nginx_operator.Controller.Run.{Run, return}
use nginx_operator.Controller.Run.Leaves.{Leaves, return-Leaves, if-Leaves}
use nginx_operator.Controller.Cluster.{
  Cluster, Answer, found, not_found, failed, Write, send, read_clock,
}
use nginx_operator.Controller.Server.Objects.{
  with_owner, ObjectMeta, NginxServer, owned, create_or_update,
}

-- The read finds an object of which `P` holds.
abbrev pub Finds : {A : Type 0} → (A → Type 0) → Answer A → Type 0
Finds P (found kept) = P kept
Finds P (not_found problem) = ⊥
Finds P (failed problem) = ⊥

module _ {W : Type 0} (cluster : Cluster W) where
  pub send-Leaves :
      {B : Type 0} (see : W → B) (write : Write)
      → ((w : W) → see (cluster.apply write w).0 ≡ see w)
      → Leaves see (send cluster write)
  unfolding send
  send-Leaves see write h = record { kept = h }

  pub read_clock-Leaves :
      {B : Type 0} (see : W → B)
      → ((w : W) → see (cluster.clock w).0 ≡ see w)
      → Leaves see (read_clock cluster)
  unfolding read_clock
  read_clock-Leaves see h = record { kept = h }

  with_owner_passed :
      (kind : String) (continue : ObjectMeta → Run W Write (Option String))
      (owner : Result ObjectMeta) (w : W)
      → (with_owner cluster kind continue owner w).value ≡ none
      → (meta : ObjectMeta) × (owner ≡ ok meta)
        × (with_owner cluster kind continue owner ≡ continue meta)
  unfolding with_owner return
  with_owner_passed kind continue (err problem) w fine = cc
  with_owner_passed kind continue (ok meta) w fine = (meta, refl, refl)

  -- Without an error the owner reference was set, and the rest of the function ran.
  pub owned_passed :
      (server : NginxServer) (kind : String) (meta : ObjectMeta)
      (continue : ObjectMeta → Run W Write (Option String)) (w : W)
      → (owned cluster server kind meta continue w).value ≡ none
      → (meta' : ObjectMeta) × (cluster.set_controller_reference server meta ≡ ok meta')
        × (owned cluster server kind meta continue ≡ continue meta')
  unfolding owned
  owned_passed server kind meta continue w = with_owner_passed kind continue _ w

  with_owner-Leaves :
      {B : Type 0} (see : W → B) (kind : String)
      (continue : ObjectMeta → Run W Write (Option String)) (owner : Result ObjectMeta)
      → ((meta : ObjectMeta) → Leaves see (continue meta))
      → Leaves see (with_owner cluster kind continue owner)
  unfolding with_owner
  with_owner-Leaves see kind continue (err problem) h = return-Leaves see _
  with_owner-Leaves see kind continue (ok meta) h = h meta

  pub owned-Leaves :
      {B : Type 0} (see : W → B) (server : NginxServer) (kind : String) (meta : ObjectMeta)
      (continue : ObjectMeta → Run W Write (Option String))
      → ((meta' : ObjectMeta) → Leaves see (continue meta'))
      → Leaves see (owned cluster server kind meta continue)
  unfolding owned
  owned-Leaves see server kind meta continue h = with_owner-Leaves see kind continue _ h

module _ {W A : Type 0} (cluster : Cluster W) (create : Write) (same : A → Bool)
    (update : A → Write) (get : W → Answer A) (P : A → Type 0) where
  -- What is known of the object that a read finds after the writes, and of one that is not written.
  pub record Secures : Type 0 where
    pub created :
        (w : W) → (cluster.apply create w).1 ≡ none → Finds P (get (cluster.apply create w).0)
    pub updated :
        (existing : A) (w : W)
        → get w ≡ found existing
        → (cluster.apply (update existing) w).1 ≡ none
        → Finds P (get (cluster.apply (update existing) w).0)
    pub unchanged : (existing : A) → same existing ≡ true → P existing

module _ {W A : Type 0} (cluster : Cluster W) (kind : String) (create : Write) (same : A → Bool)
    (update : A → Write) where
  -- The tail, for an answer.
  abbrev tail : Answer A → Run W Write (Option String)
  tail answer = create_or_update cluster kind answer create same update

  -- Only the two writes change anything.
  pub create_or_update-Leaves :
      {B : Type 0} (see : W → B) (answer : Answer A)
      → ((w : W) → see (cluster.apply create w).0 ≡ see w)
      → ((existing : A) (w : W) → see (cluster.apply (update existing) w).0 ≡ see w)
      → Leaves see (tail answer)
  unfolding create_or_update
  create_or_update-Leaves see (failed problem) h k = return-Leaves see _
  create_or_update-Leaves see (not_found problem) h k = send-Leaves cluster see create h
  create_or_update-Leaves see (found existing) h k =
      if-Leaves see (same existing) _ _ (return-Leaves see _)
        (send-Leaves cluster see (update existing) (k existing))

  module _ (get : W → Answer A) (P : A → Type 0) where
    found_tail-Finds :
        (b : Bool) (existing : A) (w : W)
        → Secures cluster create same update get P
        → get w ≡ found existing
        → same existing ≡ b
        → ((if b then return none else send cluster (update existing)) w).value ≡ none
        → Finds P (get ((if b then return none else send cluster (update existing)) w).world)
    unfolding return send
    found_tail-Finds true existing w laws read e fine = rw read (laws.unchanged existing e)
    found_tail-Finds false existing w laws read e fine = laws.updated existing w read fine

    -- After a tail without an error, a read finds such an object.
    pub create_or_update-Finds :
        (answer : Answer A) (w : W)
        → Secures cluster create same update get P
        → get w ≡ answer
        → (tail answer w).value ≡ none
        → Finds P (get (tail answer w).world)
    unfolding create_or_update return send
    create_or_update-Finds (failed problem) w laws read fine = cc
    create_or_update-Finds (not_found problem) w laws read fine = laws.created w fine
    create_or_update-Finds (found existing) w laws read fine =
        found_tail-Finds (same existing) existing w laws read refl fine

  -- With an object that the test takes for the same, nothing is written.
  pub create_or_update_quiet :
      (answer : Answer A) (w : W)
      → Finds (λ existing. same existing ≡ true) answer
      → tail answer w ≡ return none w
  unfolding create_or_update
  create_or_update_quiet (found existing) w equal = rw equal refl
  create_or_update_quiet (not_found problem) w h = absurd h
  create_or_update_quiet (failed problem) w h = absurd h

  -- With an object that the test tells apart, an update of it is the one write.
  pub create_or_update_writes :
      (answer : Answer A) (w : W)
      → Finds (λ existing. same existing ≡ false) answer
      → (existing : A) × ((tail answer w).calls ≡ update existing ∷ [])
  unfolding create_or_update send
  create_or_update_writes (found existing) w differs = (existing, rw differs refl)
  create_or_update_writes (not_found problem) w h = absurd h
  create_or_update_writes (failed problem) w h = absurd h

pub Finds-map :
    {A : Type 0} {P Q : A → Type 0} (answer : Answer A)
    → ((kept : A) → P kept → Q kept)
    → Finds P answer
    → Finds Q answer
Finds-map (found kept) f p = f kept p
Finds-map (not_found problem) f h = h
Finds-map (failed problem) f h = h

-- A read of the same key.
pub Finds-at :
    {W A : Type 0} (get : String → String → W → Answer A) (P : A → Type 0) (w : W)
    {namespace namespace' name name' : String}
    → namespace ≡ namespace'
    → name ≡ name'
    → Finds P (get namespace name w)
    → Finds P (get namespace' name' w)
Finds-at get P w {namespace} {namespace'} {name} {name'} space same h =
    subst (λ n. Finds P (get namespace' n w)) same (subst (λ s. Finds P (get s name w)) space h)

module _ {W A : Type 0} (cluster : Cluster W) (get : String → String → W → Answer A)
    (meta_of : A → ObjectMeta) (create update : A → Write) (Alike : A → A → Type 0) where
  -- What an API server keeps of a kind of object: after a write without an error a read gives an
  -- object like the one that was sent, and a read gives an object of the key that was asked for.
  pub record Keeps : Type 0 where
    pub created :
        (a : A) (w : W)
        → (cluster.apply (create a) w).1 ≡ none
        → Finds
            (λ kept. Alike kept a)
            (get (meta_of a).namespace (meta_of a).name (cluster.apply (create a) w).0)
    pub updated :
        (a : A) (w : W)
        → (cluster.apply (update a) w).1 ≡ none
        → Finds
            (λ kept. Alike kept a)
            (get (meta_of a).namespace (meta_of a).name (cluster.apply (update a) w).0)
    pub named :
        (namespace name : String) (a : A) (w : W)
        → get namespace name w ≡ found a
        → ((meta_of a).namespace ≡ namespace) × ((meta_of a).name ≡ name)

  -- An update that keeps the key of what it found.
  pub Keeps-Secures :
      (desired : A) (same : A → Bool) (merge : A → A) (P : A → Type 0)
      → Keeps
      → ((existing : A)
          → ((meta_of (merge existing)).namespace ≡ (meta_of existing).namespace)
            × ((meta_of (merge existing)).name ≡ (meta_of existing).name))
      → ((kept : A) → Alike kept desired → P kept)
      → ((existing kept : A) → Alike kept (merge existing) → P kept)
      → ((existing : A) → same existing ≡ true → P existing)
      → Secures cluster
          (create desired)
          same
          (λ existing. update (merge existing))
          (get (meta_of desired).namespace (meta_of desired).name)
          P
  Keeps-Secures desired same merge P laws key at_create at_update at_rest = record {
    created = λ w fine. Finds-map _ at_create (laws.created desired w fine);
    updated = λ existing w read fine.
        let (space, name) = laws.named _ _ existing w read in
        let (space', name') = key existing in
        Finds-at get P _ (space' ∙ space) (name' ∙ name)
          (Finds-map _ (at_update existing) (laws.updated (merge existing) w fine));
    unchanged = at_rest;
  }
