-- ===== src/Resource/Consistent.antt =====
-- What the service documents, and what a fixture keeps true of its attribute and the users.
use tobiko.Prelude.{
  ◌≡◌, ◌≢◌, ◌∙◌, refl, sym, subst, String, true, Option, none, some, Result, ok, err, arith, inl,
  inr, Result-cases,
}
use tobiko.Shelves.{Shelves}
use tobiko.Shelves.Holding.{holds}
use tobiko.Resource.{
  FindError, not_found, failed, ResourceError, Resources, State, M, bind, call, found,
  cached_or_found, get_resource,
}

abbrev pub Finds : {R E : Type 0} → Result (FindError E) (Option R) → Option R → Type 0
Finds (ok o) v = v ≡ o
Finds (err not_found) v = v ≡ none
Finds (err (failed e)) v = Unit

abbrev pub Gives : {R E : Type 0} → Result E (Option R) → Option R → Type 0
Gives (ok o) v = v ≡ o
Gives (err e) v = Unit

-- What the service documents: `resource_find` gives the resource that there is, `resource_create`
-- gives the one that it makes, and a failed `resource_delete` deletes nothing.
pub record IsFaithful {W R E : Type 0} (resources : Resources W R E) (view : W → Option R)
    : Type 0 where
  pub set_up_keeps : (w : W) → view (resources.set_up w).1 ≡ view w
  pub quotas_keep : (w : W) → view (resources.quotas_are_ok w).1 ≡ view w
  pub find_keeps : (w : W) → view (resources.resource_find w).1 ≡ view w
  pub finds : (w : W) → Finds (resources.resource_find w).0 (view w)
  pub creates :
      (w : W) → Gives (resources.resource_create w).0 (view (resources.resource_create w).1)
  pub failed_keeps :
      (w : W) (e : E)
      → (resources.resource_delete w).0 ≡ err e
      → view (resources.resource_delete w).1 ≡ view w

module _ {W R E : Type 0} (resources : Resources W R E) (shelf name : String) (view : W → Option R)
    (faithful : IsFaithful resources view) where
  -- A resource with users is there, and the attribute is None or that resource.
  pub record IsConsistent (st : State W R) : Type 0 where
    pub used : (t : String) → holds st.shelves shelf name t ≡ true → view st.world ≢ none
    pub cached : (r : R) → st.resource ≡ some r → view st.world ≡ some r

  abbrev pub Keeps :
      {A : Type 0} → (A → State W R → Type 0) → Result (ResourceError E) A × State W R → Type 0
  Keeps Post (ok a, st) = IsConsistent st × Post a st
  Keeps Post (err e, st) = IsConsistent st

  abbrev pub Any : {A : Type 0} → A → State W R → Type 0
  Any a st = Unit

  pub bind_rule :
      {A B : Type 0} (Before : A → State W R → Type 0) (Post : B → State W R → Type 0)
      → (f : A → M W R E B) (r : Result (ResourceError E) A × State W R) → Keeps Before r
      → ((a : A) (st : State W R) → IsConsistent st → Before a st → Keeps Post (f a st))
      → Keeps Post (bind f r)
  bind_rule Before Post f (ok a, st) h k = k a st h.0 h.1
  bind_rule Before Post f (err e, st) h k = h

  pub moved :
      (st : State W R) (w : W)
      → view w ≡ view st.world
      → IsConsistent st
      → IsConsistent (record st { world = w })
  moved st w e h = record {
    used = λ t u. subst (λ v. v ≢ none) (sym e) (h.used t u);
    cached = λ r c. e ∙ h.cached r c;
  }

  pub call-Keeps :
      {A : Type 0} (f : W → Result E A × W) (st : State W R)
      → view (f st.world).1 ≡ view st.world
      → IsConsistent st
      → Keeps {A = A} Any (call f st)
  unfolding call
  call-Keeps f st e h = elim (Result-cases (f st.world).0) [
    | inl (a, i) ↦ rw i (moved st (f st.world).1 e h, tt)
    | inr (x, i) ↦ rw i (moved st (f st.world).1 e h)
  ]

  -- The resource that there is, and the shelves as before.
  abbrev pub Seen : Shelves → Option R → State W R → Type 0
  Seen shelves o st = (view st.world ≡ o) × (st.shelves ≡ shelves)

  found-Keeps :
      (r : Result (FindError E) (Option R) × W) (st : State W R)
      → Finds r.0 (view st.world)
      → view r.1 ≡ view st.world
      → IsConsistent st
      → Keeps (Seen st.shelves) (found resources shelf name r st)
  unfolding found
  found-Keeps (ok o, w) st f e h = (
    record { used = λ t u. subst (λ v. v ≢ none) (sym e) (h.used t u); cached = λ r c. e ∙ f ∙ c },
    (e ∙ f, refl),
  )
  found-Keeps (err not_found, w) st f e h = (
    record {
      used = λ t u. subst (λ v. v ≢ none) (sym e) (h.used t u);
      cached = λ r c. absurd (ground (arith, c));
    },
    (e ∙ f, refl),
  )
  found-Keeps (err (failed x), w) st f e h = moved st w e h

  cached_or_found-Keeps :
      (o : Option R) (st : State W R)
      → st.resource ≡ o
      → IsConsistent st
      → Keeps (Seen st.shelves) (cached_or_found resources shelf name o st)
  cached_or_found-Keeps (some r) st c h = (h, (h.cached r c, refl))
  cached_or_found-Keeps none st c h =
      found-Keeps (resources.resource_find st.world) st (faithful.finds st.world)
        (faithful.find_keeps st.world) h

  pub get_resource-Keeps :
      (st : State W R)
      → IsConsistent st
      → Keeps (Seen st.shelves) (get_resource resources shelf name st)
  unfolding get_resource
  get_resource-Keeps st h = cached_or_found-Keeps st.resource st refl h
