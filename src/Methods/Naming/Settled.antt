-- ===== src/Methods/Naming/Settled.antt =====
-- pkg/agent/datamodel/types.go: what a call of `GetClusterID` leaves.
use agent_baker.Prelude.{
  ℕ, zero, suc, ◌-◌, ◌≤◌, Bool, true, false, not, ◌&&◌, ◌⊎◌, List, [], ◌∷◌, ◌≡◌, refl, arith,
  Option, none, some, is_some, length, take, replicate, length-append, length-take, Bool-cases, inl,
  inr,
}
use agent_baker.Prelude.Int.{ℤ, pos}
use agent_baker.Text.{Text, is_empty}
use agent_baker.Text.Number.{format_int}
use agent_baker.Datamodel.Profiles.{HostedMasterProfile}
use agent_baker.Datamodel.Cluster.{AgentPoolProfile, Properties}
use agent_baker.Methods.Cluster.{pools}
use agent_baker.Methods.Naming.{slice_to, zero_padded, hashed_name, seed_name, get_cluster_id}

length-replicate : (n c : ℕ) → length (replicate n c) ≡ n
length-replicate zero c = refl
length-replicate (suc n) c = omega (arith, length-replicate n c)

length-zero_padded : (width : ℕ) (i : ℤ) → width ≤ length (zero_padded width i)
unfolding zero_padded
length-zero_padded width i = omega (
  arith,
  length-append (replicate (width - length (format_int i)) b'0') (format_int i),
  length-replicate (width - length (format_int i)) b'0',
)

-- A slice within the text's length.
record Sliced (n : ℕ) (s : Text) : Type 0 where
  pub part : Text
  pub sliced : slice_to n s ≡ some part
  pub size : length part ≡ n

slice_to-Sliced : (n : ℕ) (s : Text) → n ≤ length s → Sliced n s
unfolding slice_to
slice_to-Sliced n s h = record {
  part = take n s;
  sliced = ground arith;
  size = omega (arith, length-take n s);
}

-- What a call leaves: an identifier that the properties hold, and that a second call gives again
-- without a change.
pub record IsSettled (random_uint32 : Text → ℕ) (p : Properties) : Type 0 where
  pub id : Text
  pub made : get_cluster_id random_uint32 p ≡ some (id, record p { cluster_id = id })
  pub again :
      get_cluster_id random_uint32 (record p { cluster_id = id })
      ≡ some (id, record p { cluster_id = id })
  pub kept : is_empty p.cluster_id ≡ false → id ≡ p.cluster_id
  pub size : is_empty p.cluster_id ≡ true → length id ≡ 8

length-is_empty : (s : Text) (n : ℕ) → length s ≡ suc n → is_empty s ≡ false
length-is_empty [] n h = absurd (omega (arith, h))
length-is_empty (c ∷ s) n h = refl

-- The first pool is nil.
abbrev pub is_first_nil : List (Option AgentPoolProfile) → Bool
is_first_nil (none ∷ profiles) = true
is_first_nil _ = false

-- No identifier, no hosted master, and a first pool that is nil.
abbrev pub follows_nil : Properties → Bool
follows_nil p =
    is_empty p.cluster_id
    && (not (is_some p.hosted_master_profile) && is_first_nil (pools p.agent_pool_profiles))

-- A name to hash, or a nil first pool and no hosted master.
abbrev Seeded : Option HostedMasterProfile → List (Option AgentPoolProfile) → Type 0
Seeded hosted profiles =
    ((name : Text) × (hashed_name hosted profiles ≡ some name)
      × ((not (is_some hosted) && is_first_nil profiles) ≡ false))
    ⊎ ((hashed_name hosted profiles ≡ none)
        × ((not (is_some hosted) && is_first_nil profiles) ≡ true))

hashed_name-Seeded :
    (hosted : Option HostedMasterProfile) (profiles : List (Option AgentPoolProfile))
    → Seeded hosted profiles
hashed_name-Seeded (some hosted) profiles = inl (hosted.dns_prefix, refl, refl)
hashed_name-Seeded none [] = inl ([], refl, refl)
hashed_name-Seeded none (none ∷ profiles) = inr (refl, refl)
hashed_name-Seeded none (some a ∷ profiles) = inl (a.name, refl, refl)

module _ (random_uint32 : Text → ℕ) (p : Properties) where
  present-IsSettled : is_empty p.cluster_id ≡ false → IsSettled random_uint32 p
  unfolding get_cluster_id
  present-IsSettled e = record {
    id = p.cluster_id;
    made = rw e;
    again = rw e;
    kept = λ _. refl;
    size = λ f. absurd (ground (arith, e, f));
  }

  made-IsSettled :
      (name : Text)
      → is_empty p.cluster_id ≡ true
      → seed_name p ≡ some name
      → IsSettled random_uint32 p
  unfolding get_cluster_id
  made-IsSettled name e named =
      let cut =
        slice_to-Sliced 8 (zero_padded 8 (pos (random_uint32 name))) (length-zero_padded 8 _) in
      record {
        id = cut.part;
        made = rw (e, named, cut.sliced);
        again = rw (length-is_empty cut.part 7 cut.size);
        kept = λ f. absurd (ground (arith, e, f));
        size = λ _. cut.size;
      }

  -- `GetClusterID` panics exactly where there is no identifier, no hosted master, and a first pool
  -- that is nil. Whatever else the cluster is, it changes nothing but the identifier, keeps one that
  -- is there, makes one of eight bytes where there is none, and a second call gives the same
  -- identifier and changes nothing.
  pub get_cluster_id-IsSettled :
      ((follows_nil p ≡ false) × IsSettled random_uint32 p)
      ⊎ ((follows_nil p ≡ true) × (get_cluster_id random_uint32 p ≡ none))
  unfolding get_cluster_id seed_name
  get_cluster_id-IsSettled = elim (Bool-cases (is_empty p.cluster_id)) [
    | inr e ↦ inl (rw e, present-IsSettled e)
    | inl e ↦ elim (hashed_name-Seeded p.hosted_master_profile (pools p.agent_pool_profiles)) [
      | inl (name, named, safe) ↦ inl (rw (e, safe), made-IsSettled name e named)
      | inr (unnamed, nil) ↦ inr (rw (e, nil), rw (e, unnamed))
    ]
  ]
