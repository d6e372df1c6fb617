-- ===== src/Auth/Challenges/OneTime.antt =====
-- A challenge is consumed once, within its lifetime, and the sweeper takes none that is alive.
use acdp_control_plane.Prelude.{
  ℕ, ◌≤◌, ◌≡◌, ◌≢◌, refl, inl, inr, String, List, [], ◌∷◌, Option, none, some, arith, ltb,
  if◌then◌else◌, eq_iff, eq_refl, Option-cases, All,
}
use acdp_control_plane.Prelude.OrderedMap.{
  lookup, insert, lookup-insert, lookup-remove, IsMap, insert-IsMap, remove-IsMap,
}
use acdp_control_plane.Auth.Challenges.{
  ChallengeRecord, Challenges, put, take, take_found, evict_expired, size,
}

-- An operation of the repository, with the clock that it reads.
pub data Op : Type 0 where
  putting : ChallengeRecord → Op
  taking : String → ℕ → Op
  evicting : ℕ → Op
  sizing : ℕ → Op

unfoldable pub step : Op → Challenges → Challenges
step (putting rec) store = put rec store
step (taking nonce now) store = (take nonce now store).1
step (evicting now) store = (evict_expired now store).1
step (sizing now) store = (size now store).1

-- The latest operation stands first.
pub run : List Op → Challenges → Challenges
run [] store = store
run (op ∷ past) store = step op (run past store)

-- No operation puts a challenge with this nonce.
abbrev pub NotPut : String → Op → Type 0
NotPut nonce (putting rec) = rec.nonce ≢ nonce
NotPut nonce _ = Unit

lookup-evict_none :
    (nonce : String) (now : ℕ) (store : Challenges)
    → lookup nonce store ≡ none
    → lookup nonce (evict_expired now store).1 ≡ none
unfolding evict_expired lookup
lookup-evict_none nonce now [] h = refl
lookup-evict_none nonce now ((k, rec) ∷ store) h =
    ground (arith, eq_iff k nonce, lookup-evict_none nonce now store)

pub lookup-take_self :
    (nonce : String) (now : ℕ) (store : Challenges) → lookup nonce (take nonce now store).1 ≡ none
unfolding take
lookup-take_self nonce now store = elim (Option-cases (lookup nonce store)) [
  | inl gone ↦ rw (gone, take) gone
  | inr (rec, found) ↦ rw found (simp (lookup-remove, eq_refl))
]

lookup-take-none :
    (nonce other : String) (now : ℕ) (store : Challenges)
    → lookup nonce store ≡ none
    → lookup nonce (take other now store).1 ≡ none
unfolding take
lookup-take-none nonce other now store h = elim (Option-cases (lookup other store)) [
  | inl gone ↦ rw (gone, take) h
  | inr (rec, found) ↦ rw found (simp lookup-remove (ground (arith, h)))
]

pub step-none :
    (nonce : String) (op : Op) (store : Challenges)
    → NotPut nonce op
    → lookup nonce store ≡ none
    → lookup nonce (step op store) ≡ none
unfolding step put size
step-none nonce (putting rec) store other h =
    simp lookup-insert (ground (arith, eq_iff rec.nonce nonce, other, h))
step-none nonce (taking k now) store other h = lookup-take-none nonce k now store h
step-none nonce (evicting now) store other h = lookup-evict_none nonce now store h
step-none nonce (sizing now) store other h = lookup-evict_none nonce now store h

run_none :
    (nonce : String) (past : List Op) (store : Challenges)
    → All (NotPut nonce) past
    → lookup nonce store ≡ none
    → lookup nonce (run past store) ≡ none
unfolding run
run_none nonce [] store other h = h
run_none nonce (op ∷ past) store (o, other) h =
    step-none nonce op (run past store) o (run_none nonce past store other h)

pub take_missing :
    (nonce : String) (now : ℕ) (store : Challenges)
    → lookup nonce store ≡ none
    → (take nonce now store).0 ≡ none
unfolding take
take_missing nonce now store h = rw h

-- Once a nonce has been taken, whatever came of it, no later take of it succeeds, after any
-- operations that do not put a challenge with that nonce again.
pub take_once :
    (nonce : String) (now later : ℕ) (past : List Op) (store : Challenges)
    → All (NotPut nonce) past
    → (take nonce later (run past (take nonce now store).1)).0 ≡ none
take_once nonce now later past store other =
    take_missing nonce later _
      (run_none nonce past (take nonce now store).1 other (lookup-take_self nonce now store))

-- A challenge that has just been put is given back exactly while it has not expired.
pub take-put :
    (rec : ChallengeRecord) (now : ℕ) (store : Challenges)
    → (take rec.nonce now (put rec store)).0 ≡ (if ltb rec.expires_at now then none else some rec)
unfolding take put
take-put rec now store =
    let found : lookup rec.nonce (insert rec.nonce rec store) ≡ some rec =
      simp (lookup-insert, eq_refl) in
    rw found

evict-IsMap : (now : ℕ) (store : Challenges) → IsMap store → IsMap (evict_expired now store).1
unfolding evict_expired
evict-IsMap now [] h = tt
evict-IsMap now ((k, rec) ∷ store) (new, h) =
    ground (arith, evict-IsMap now store h, lookup-evict_none k now store new)

take_found-IsMap :
    (nonce : String) (now : ℕ) (store : Challenges) (found : Option ChallengeRecord)
    → IsMap store
    → IsMap (take_found nonce now store found).1
unfolding take_found
take_found-IsMap nonce now store none h = h
take_found-IsMap nonce now store (some rec) h = remove-IsMap nonce store h

step-IsMap : (op : Op) (store : Challenges) → IsMap store → IsMap (step op store)
unfolding step put take size
step-IsMap (putting rec) store h = insert-IsMap rec.nonce rec store h
step-IsMap (taking nonce now) store h = take_found-IsMap nonce now store (lookup nonce store) h
step-IsMap (evicting now) store h = evict-IsMap now store h
step-IsMap (sizing now) store h = evict-IsMap now store h

run-IsMap : (past : List Op) → IsMap (run past [])
unfolding run
run-IsMap [] = tt
run-IsMap (op ∷ past) = step-IsMap op (run past []) (run-IsMap past)

take_of_evicted :
    (nonce : String) (swept now : ℕ) (store : Challenges)
    → swept ≤ now
    → IsMap store
    → (take nonce now (evict_expired swept store).1).0 ≡ (take nonce now store).0
unfolding take evict_expired lookup
take_of_evicted nonce swept now [] h unique = refl
take_of_evicted nonce swept now ((k, rec) ∷ store) h (new, unique) = ground (
  arith,
  eq_iff k nonce,
  new,
  lookup-evict_none nonce swept store,
  take_of_evicted nonce swept now store h unique,
)

-- A sweep is not seen: after any operations on an empty store, every take at the time of the sweep
-- or later has the result that it would have had without it.
pub take-evict_expired :
    (nonce : String) (swept now : ℕ) (past : List Op)
    → swept ≤ now
    → (take nonce now (evict_expired swept (run past [])).1).0 ≡ (take nonce now (run past [])).0
take-evict_expired nonce swept now past h =
    take_of_evicted nonce swept now (run past []) h (run-IsMap past)
