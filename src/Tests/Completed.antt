-- ===== src/Tests/Completed.antt =====
-- The calls that succeed, in the environment in memory.
use code_vald_org.Prelude.{
  String, ◌≡◌, refl, sym, ap, eq_iff, ◌∙◌, subst, true, false, inl, inr, List, [], ◌∷◌, Bool-cases,
}
use code_vald_org.Graph.{Entity, Properties, Relationship}
use code_vald_org.Graph.State.{Occurs, is_named, selects, selects_edge}
use code_vald_org.Graph.Sound.{HasUniqueIds}
use code_vald_org.Effects.{Result, ok, err}
use code_vald_org.Models.{User}
use code_vald_org.Helpers.{entity_to_invitation}
use code_vald_org.Crypto.{hash_sha256}
use code_vald_org.Store.Memory.{Memory, memory, graph_of, memory-IsLawful, find_named, amend_found}
use code_vald_org.Store.Reliable.{IsOk, IsReliable}
use code_vald_org.Manager.Calls.{edges_to}
use code_vald_org.Manager.Invitations.{accept_invitation}
use code_vald_org.Behaviour.Invitations.{invitations, Accepts}
use code_vald_org.Behaviour.Completion.{IsAcceptable, accept_invitation_completes}
use code_vald_org.Manager.Users.{suspend_user, reactivate_user, delete_user}
use code_vald_org.Behaviour.Users.{Changed, Shows, suspension, reactivation, tombstone}
use code_vald_org.Behaviour.Changes.{user_changes_complete}
use code_vald_org.Tests.Data.{cfg, invited, invitation, with_user, user, unique_one}

find_named-IsOk :
    (agency id : String) (es : List Entity) (e : Entity)
    → Occurs e es
    → is_named agency id e ≡ true
    → IsOk (find_named agency id es)
unfolding find_named
find_named-IsOk agency id [] e o n = absurd o
find_named-IsOk agency id (x ∷ es) e (inl same) n =
    let this : is_named agency id x ≡ true = subst (λ y. is_named agency id y ≡ true) same n in
    rw this ((x, refl))
find_named-IsOk agency id (x ∷ es) e (inr more) n = elim (Bool-cases (is_named agency id x)) [
  | inl this ↦ rw this ((x, refl))
  | inr other_ ↦ rw other_ (find_named-IsOk agency id es e more n)
]

amended-IsOk :
    (agency id : String) (p : Properties) (r : Result Entity) (w : Memory)
    → IsOk r
    → IsOk (amend_found agency id p r w).0
amended-IsOk agency id p (ok old) w h = (_, refl)
amended-IsOk agency id p (err x) w h = cc

memory-IsReliable : IsReliable memory graph_of
memory-IsReliable = record {
  list_entities-IsOk = λ f w. (_, refl);
  list_relationships-IsOk = λ f w. (_, refl);
  get_entity-IsOk = λ agency id w t. find_named-IsOk agency id w.graph.entities t.0 t.1 t.2;
  update_entity-IsOk = λ agency id p w unique t.
      amended-IsOk agency id p _ w (find_named-IsOk agency id w.graph.entities t.0 t.1 t.2);
}

only_invitation :
    (e : Entity)
    → Occurs e invited.graph.entities
    → selects (invitations memory cfg "t") e ≡ true
    → e ≡ invitation
unfolding hash_sha256
only_invitation e (inl p) s =
    let t : false ≡ true = subst (λ x. selects (invitations memory cfg "t") x ≡ true) p s in cc
only_invitation e (inr (inl p)) s = p
only_invitation e (inr (inr o)) s = absurd o

linked_user :
    (r : Relationship)
    → Occurs r invited.graph.relationships
    → selects_edge (edges_to cfg "has_invitation" invitation.id) r ≡ true
    → (e : Entity) × Occurs e invited.graph.entities
      × (is_named cfg.agency_id r.from_id e ≡ true)
      × (e.type_id ≡ "User")
linked_user r (inl p) s = rw p (user, inl refl, refl, refl)
linked_user r (inr o) s = absurd o

unique_invited : HasUniqueIds invited.graph.entities
unique_invited a b (inl p) (inl q) agency id = p ∙ sym q
unique_invited a b (inl p) (inr (inl q)) agency id =
    let t : false ≡ true =
      (eq_iff "u1" "i1").1 (sym (ap (λ (x : Entity). x.id) p) ∙ id ∙ ap (λ (x : Entity). x.id) q) in
    cc
unique_invited a b (inl p) (inr (inr q)) agency id = absurd q
unique_invited a b (inr (inl p)) (inl q) agency id =
    let t : false ≡ true =
      (eq_iff "i1" "u1").1 (sym (ap (λ (x : Entity). x.id) p) ∙ id ∙ ap (λ (x : Entity). x.id) q) in
    cc
unique_invited a b (inr (inl p)) (inr (inl q)) agency id = p ∙ sym q
unique_invited a b (inr (inl p)) (inr (inr q)) agency id = absurd q
unique_invited a b (inr (inr p)) ob agency id = absurd p

acceptable :
    IsAcceptable memory graph_of memory-IsLawful memory-IsReliable cfg "t" invited invitation
unfolding hash_sha256 entity_to_invitation
acceptable = record {
  unique = unique_invited;
  there = inr (inl refl);
  selected = refl;
  only = only_invitation;
  pending = refl;
  timely = refl;
  edge = record { agency_id = "a1"; name = "has_invitation"; from_id = "u1"; to_id = "i1" };
  edge_there = inl refl;
  edge_selected = refl;
  user_there = linked_user;
}

accept_invitation_completes_example :
    (u : User) × ((accept_invitation memory cfg "t" invited).0 ≡ ok u)
    × Accepts memory cfg invited.graph
        (graph_of (accept_invitation memory cfg "t" invited).1)
        invitation
        u
accept_invitation_completes_example =
    accept_invitation_completes memory graph_of memory-IsLawful memory-IsReliable cfg "t" invited
      invitation acceptable

user_changes_complete_example :
    ((u : User) × ((suspend_user memory cfg "u1" with_user).0 ≡ ok u)
      × Changed memory graph_of memory-IsLawful cfg "u1"
          (suspension memory graph_of memory-IsLawful cfg)
          with_user.graph
          (graph_of (suspend_user memory cfg "u1" with_user).1)
          (Shows memory graph_of memory-IsLawful cfg u "suspended"))
    × ((u : User) × ((reactivate_user memory cfg "u1" with_user).0 ≡ ok u)
        × Changed memory graph_of memory-IsLawful cfg "u1"
            (reactivation memory graph_of memory-IsLawful cfg)
            with_user.graph
            (graph_of (reactivate_user memory cfg "u1" with_user).1)
            (Shows memory graph_of memory-IsLawful cfg u "active"))
    × ((delete_user memory cfg "u1" with_user).0 ≡ ok tt)
    × Changed memory graph_of memory-IsLawful cfg "u1"
        (tombstone memory graph_of memory-IsLawful cfg)
        with_user.graph
        (graph_of (delete_user memory cfg "u1" with_user).1)
        (λ _. Unit {0})
user_changes_complete_example =
    user_changes_complete memory graph_of memory-IsLawful memory-IsReliable cfg "u1" user with_user
      (unique_one user) (inl refl, refl, refl)
