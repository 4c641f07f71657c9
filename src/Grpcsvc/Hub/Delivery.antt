-- ===== src/Grpcsvc/Hub/Delivery.antt =====
-- internal/grpcsvc/hub.go: no subscriber blocks the others, and what each one receives.
use openshell_driver_appleco.Prelude.{
  ℕ, zero, suc, if◌then◌else◌, Bool-cases, inl, inr, ◌≤◌, ◌<◌, List, [], ◌∷◌, ◌++◌, some, ◌≡◌, refl,
  arith, map, length, length-append, append-nil, append_assoc, take, ltb, eqb, ap, ◌∙◌,
}
use openshell_driver_appleco.Grpcsvc.Hub.{
  Hub, Subscriber, watch_buffer, subscribe, unsubscribe, drop_sub, offer, publish, channel_of,
}

module _ {E : Type 0} where
  -- Ids are below the counter and distinct, newest first, and no channel is over its capacity.
  abbrev Below : ℕ → List (Subscriber E) → Type 0
  Below n [] = Unit
  Below n (s ∷ subs) = (s.id < n) × (length s.channel ≤ watch_buffer) × Below s.id subs

  pub record IsWellFormed (h : Hub E) : Type 0 where
    pub below : Below h.next h.subs

  Below-mono : {m n : ℕ} (subs : List (Subscriber E)) → m ≤ n → Below m subs → Below n subs
  Below-mono [] h b = tt
  Below-mono (s ∷ subs) h b = (omega arith, b.1, b.2)

  subscribe-IsWellFormed : (h : Hub E) → IsWellFormed h → IsWellFormed (subscribe h).1
  unfolding subscribe
  subscribe-IsWellFormed h w = record { below = (omega arith, omega arith, w.below) }

  drop_sub-Below :
      (id n : ℕ) (subs : List (Subscriber E)) → Below n subs → Below n (drop_sub id subs)
  unfolding drop_sub
  drop_sub-Below id n [] b = tt
  drop_sub-Below id n (s ∷ subs) b =
      ground
        (arith, drop_sub-Below id s.id subs b.2, Below-mono {m = s.id} {n = n} (drop_sub id subs))

  offer-le :
      (ev : E) (s : Subscriber E)
      → length s.channel ≤ watch_buffer
      → length (offer ev s).channel ≤ watch_buffer
  unfolding offer
  offer-le ev s h = ground (arith, length-append s.channel (ev ∷ []))

  offer-id : (ev : E) (s : Subscriber E) → (offer ev s).id ≡ s.id
  unfolding offer
  offer-id ev s = ground arith

  publish-Below :
      (ev : E) (n : ℕ) (subs : List (Subscriber E)) → Below n subs → Below n (map (offer ev) subs)
  publish-Below ev n [] b = tt
  publish-Below ev n (s ∷ subs) b =
      ground (arith, offer-le ev s b.1, offer-id ev s, publish-Below ev s.id subs b.2)

  -- One operation of the hub.
  pub data Step : Hub E → Hub E → Type 0 where
    subscribes : (h : Hub E) → Step h (subscribe h).1
    unsubscribes : (h : Hub E) (id : ℕ) → Step h (unsubscribe id h)
    publishes : (h : Hub E) (ev : E) → Step h (publish ev h)

  -- Subscribing, unsubscribing and publishing keep the ids of the streams distinct and below the
  -- counter, and no channel ever holds more than its capacity.
  pub Step-IsWellFormed : {h k : Hub E} → Step h k → IsWellFormed h → IsWellFormed k
  unfolding unsubscribe publish
  Step-IsWellFormed (subscribes h) w = subscribe-IsWellFormed h w
  Step-IsWellFormed (unsubscribes h id) w = record {
    below = drop_sub-Below id h.next h.subs w.below;
  }
  Step-IsWellFormed (publishes h ev) w = record { below = publish-Below ev h.next h.subs w.below }

  pub publish_all : List E → Hub E → Hub E
  publish_all [] h = h
  publish_all (ev ∷ evs) h = publish_all evs (publish ev h)

take-take_append {ℓ} :
    {A : Type ℓ} (n : ℕ) (xs ys : List A) → take n (take n xs ++ ys) ≡ take n (xs ++ ys)
take-take_append zero xs ys = refl
take-take_append (suc n) [] ys = refl
take-take_append (suc n) (x ∷ xs) ys = ap (◌∷◌ x) (take-take_append n xs ys)

take_of_le {ℓ} : {A : Type ℓ} (n : ℕ) (xs : List A) → length xs ≤ n → take n xs ≡ xs
take_of_le zero [] h = refl
take_of_le zero (x ∷ xs) h = elim h [ ]
take_of_le (suc n) [] h = refl
take_of_le (suc n) (x ∷ xs) h = ap (◌∷◌ x) (take_of_le n xs (omega arith))

-- A list that fills the capacity takes nothing more.
take_full {ℓ} : {A : Type ℓ} (n : ℕ) (xs ys : List A) → length xs ≡ n → take n (xs ++ ys) ≡ xs
take_full zero [] ys h = refl
take_full zero (x ∷ xs) ys h = absurd (omega arith)
take_full (suc n) [] ys h = absurd (omega arith)
take_full (suc n) (x ∷ xs) ys h = ap (◌∷◌ x) (take_full n xs ys (omega arith))

-- With the capacity a variable, so that nothing computes 128 steps.
offered :
    {A : Type 0} (n : ℕ) (ch : List A) (ev : A)
    → length ch ≤ n
    → (if ltb (length ch) n then ch ++ ev ∷ [] else ch) ≡ take n (ch ++ ev ∷ [])
offered n ch ev h =
    ground
      (arith, length-append ch (ev ∷ []), take_of_le n (ch ++ ev ∷ []), take_full n ch (ev ∷ []))

module _ {E : Type 0} where
  channel-offer :
      (ev : E) (s : Subscriber E)
      → length s.channel ≤ watch_buffer
      → (offer ev s).channel ≡ take watch_buffer (s.channel ++ ev ∷ [])
  unfolding offer
  channel-offer ev s h = elim (Bool-cases (ltb (length s.channel) watch_buffer)) [
    | inl room ↦ rw room (rw room at (offered watch_buffer s.channel ev h))
    | inr full ↦ rw full (rw full at (offered watch_buffer s.channel ev h))
  ]

  channel_of-offer :
      (ev : E) (id n : ℕ) (subs : List (Subscriber E)) (ch : List E)
      → Below n subs
      → channel_of id subs ≡ some ch
      → channel_of id (map (offer ev) subs) ≡ some (take watch_buffer (ch ++ ev ∷ []))
  unfolding channel_of
  channel_of-offer ev id n [] ch b h = cc
  channel_of-offer ev id n (s ∷ subs) ch b h = elim (Bool-cases (eqb s.id id)) [
    | inl hit ↦
        let same : s.channel ≡ ch = ground (arith, hit) in
        rw (offer-id ev s, hit)
          (ap some
            (channel-offer ev s b.1 ∙ ap (λ (c : List E). take watch_buffer (c ++ ev ∷ [])) same))
    | inr miss ↦
        rw (offer-id ev s, miss) (channel_of-offer ev id s.id subs ch b.2 (ground (arith, miss)))
  ]

  channel_of-publish :
      (h : Hub E) (ev : E) (id : ℕ) (ch : List E)
      → IsWellFormed h
      → channel_of id h.subs ≡ some ch
      → channel_of id (publish ev h).subs ≡ some (take watch_buffer (ch ++ ev ∷ []))
  unfolding publish
  channel_of-publish h ev id ch w e = channel_of-offer ev id h.next h.subs ch w.below e

  -- Whatever the other streams do with theirs, a stream's channel after a burst of events holds what
  -- it held and then the events in their order, cut off at the capacity: nothing is reordered, and
  -- what is lost is lost at the end.
  pub publish_all-channel :
      (evs : List E) (h : Hub E) (id : ℕ) (ch : List E)
      → IsWellFormed h
      → channel_of id h.subs ≡ some (take watch_buffer ch)
      → channel_of id (publish_all evs h).subs ≡ some (take watch_buffer (ch ++ evs))
  unfolding publish_all
  publish_all-channel [] h id ch w e = rw (append-nil ch) e
  publish_all-channel (ev ∷ evs) h id ch w e =
      publish_all-channel evs (publish ev h) id (ch ++ ev ∷ [])
        (Step-IsWellFormed (publishes h ev) w)
        (channel_of-publish h ev id (take watch_buffer ch) w e
          ∙ ap some (take-take_append watch_buffer ch (ev ∷ [])))
      ∙ ap (λ (c : List E). some (take watch_buffer c)) (append_assoc ch (ev ∷ []) evs)
