-- ===== src/Leases/Tests.antt =====
-- Concrete runs, and the theorems at them.
use prodkit_control.Prelude.{
  ℕ, ◌+◌, String, string_discrete, true, false, not, ◌||◌, none, some, [], ◌∷◌, ◌≡◌, ◌≢◌, refl,
  is_space, is_blank,
}
use prodkit_control.Prelude.Int.{ℤ, pos}
use prodkit_control.Prelude.Dict.{find, put}
use prodkit_control.Prelude.Result.{ok, err, lease_lost}
use prodkit_control.Contracts.Work.{FencedLease, named, ResourceKey_discrete}
use prodkit_control.Queue.{is_valid_ttl}
use prodkit_control.Leases.{
  Resource_discrete, Slots, slot, resource, live, acquire, holding, is_current, renew, release,
}
use prodkit_control.Leases.Fencing.{IsFenced, run}
use prodkit_control.Leases.Exclusion.{holders_agree, former_holder_out, acquire_exclusive}

abbrev lease : String → ℕ → ℕ → ℕ → FencedLease
lease owner token at lease_id = record {
  lease_id = lease_id;
  tenant_id = "t";
  resource_key = named "r";
  owner_id = owner;
  fence_token = token;
  acquired_at = at;
  expires_at = at + 100;
}

-- the store after `x` was given the lease at 5
abbrev held : Slots
held = (("t", named "r"), record { fence_token = 1; current = some (lease "x" 1 5 900) }) ∷ []

empty-IsFenced : IsFenced []
unfolding find
empty-IsFenced = record { fits = λ id l e. absurd (cc e) }

current : is_current (lease "x" 1 5 900) 50 held ≡ true
unfolding is_current holding find Resource_discrete string_discrete ResourceKey_discrete
current = refl

holders_agree_example :
    ((lease "x" 1 5 900).lease_id ≡ (lease "x" 1 5 900).lease_id)
    × ((lease "x" 1 5 900).owner_id ≡ (lease "x" 1 5 900).owner_id)
    × ((lease "x" 1 5 900).fence_token ≡ (lease "x" 1 5 900).fence_token)
holders_agree_example =
    holders_agree (lease "x" 1 5 900) (lease "x" 1 5 900) 50 held refl current current

granted : (acquire "t" "r" "x" (pos 100) 5 900 []).0 ≡ ok (some (lease "x" 1 5 900))
unfolding acquire find put string_discrete is_blank is_space Resource_discrete
granted = refl

lapsed :
    (live (slot ("t", named "r") (acquire "t" "r" "x" (pos 100) 5 900 []).1).current 200 ≡ none)
    × ((acquire "t" "r" "y" (pos 100) 200 901 (acquire "t" "r" "x" (pos 100) 5 900 []).1).0
        ≡ ok (some (lease "y" 2 200 901)))
unfolding acquire find put string_discrete is_blank is_space Resource_discrete ResourceKey_discrete
lapsed = (refl, refl)

former_holder_out_example :
    let r = run [] (acquire "t" "r" "x" (pos 100) 5 900 []).1 in
    let u = run [] (acquire "t" "r" "y" (pos 100) 200 901 r).1 in
    (is_current (lease "x" 1 5 900) 250 u ≡ false)
    × (release (lease "x" 1 5 900) 250 u ≡ (err lease_lost, u))
    × ((ttl : ℤ)
        → is_valid_ttl ttl ≡ true
        → renew (lease "x" 1 5 900) ttl 250 u ≡ (err lease_lost, u))
unfolding run
former_holder_out_example =
    former_holder_out "t" "r" "x" "y" (pos 100) (pos 100) 5 200 900 901 [] (lease "x" 1 5 900)
      (lease "y" 2 200 901) [] [] empty-IsFenced granted lapsed 250

valid_call :
    (not (is_valid_ttl (pos 100)) || (is_blank "t" || (is_blank "r" || is_blank "x"))) ≡ false
unfolding is_blank is_space
valid_call = refl

acquire_exclusive_example :
    let (result, r) = acquire "t" "r" "x" (pos 100) 5 900 [] in
    ((l : FencedLease)
      → result ≡ ok (some l)
      → (is_current l 5 r ≡ true) × (l.owner_id ≡ "x") × (resource l ≡ ("t", named "r")))
    × ((other : FencedLease)
        → live (slot ("t", named "r") []).current 5 ≡ some other
        → other.owner_id ≢ "x"
        → (result ≡ ok none) × (r ≡ []))
acquire_exclusive_example =
    acquire_exclusive "t" "r" "x" (pos 100) 5 900 [] empty-IsFenced valid_call
