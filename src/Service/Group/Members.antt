-- ===== src/Service/Group/Members.antt =====
-- Who is in a new group (src/service/group_service.cc).
use linux_server.Base.{
  Bool, true, false, not, ◌&&◌, ◌||◌, ◌≡◌, refl, ap, sym, subst, ◌∙◌, List, [], ◌∷◌, ◌++◌, some,
  Bytes, codes, map, All, if◌then◌else◌, arith, ℤ, le_zero, ◌==◌, int_eq, int_beq_iff, Bool-cases,
  inl, inr,
}
use linux_server.Service.Group.{unique_members, member_of, group_members}

abbrev pub distinct : List ℤ → Bool
distinct [] = true
distinct (x ∷ xs) = not (member_of x xs) && distinct xs

abbrev pub all_positive : List ℤ → Bool
all_positive [] = true
all_positive (x ∷ xs) = not (le_zero x) && all_positive xs

member_of-append :
    (x : ℤ) (xs ys : List ℤ) → member_of x (xs ++ ys) ≡ (member_of x xs || member_of x ys)
member_of-append x [] ys = refl
member_of-append x (y ∷ xs) ys = ground (arith, member_of-append x xs ys)

distinct-snoc :
    (m : ℤ) (xs : List ℤ)
    → distinct xs ≡ true
    → member_of m xs ≡ false
    → distinct (xs ++ m ∷ []) ≡ true
distinct-snoc m [] d h = refl
distinct-snoc m (x ∷ xs) d h =
    ground
      (arith, distinct-snoc m xs, member_of-append x xs (m ∷ []), int_beq_iff m x, int_beq_iff x m)

some_inv : {A : Type 0} (a b : A) → some a ≡ some b → a ≡ b
some_inv a b e = cc e

repeated :
    (m x : ℤ) (unique ids : List ℤ)
    → member_of m unique ≡ true
    → (member_of x unique || member_of x ids) ≡ (member_of x unique || member_of x (m ∷ ids))
repeated m x unique ids q = elim (Bool-cases (m == x)) [
  | inl e ↦ ground (arith, subst (λ y. member_of y unique ≡ true) ((int_beq_iff m x).0 e) q)
  | inr e ↦ ground arith
]

unique_from :
    (unique ids ms : List ℤ)
    → unique_members unique ids ≡ some ms
    → distinct unique ≡ true
    → (distinct ms ≡ true)
      × (all_positive ids ≡ true)
      × ((x : ℤ) → member_of x ms ≡ (member_of x unique || member_of x ids))
unfolding unique_members
unique_from unique [] ms e d = rw (some_inv ms unique (sym e)) (d, refl, λ x. ground arith)
unique_from unique (m ∷ ids) ms e d = elim (Bool-cases (le_zero m)) [
  | inl p ↦ absurd (ground arith)
  | inr p ↦ elim (Bool-cases (member_of m unique)) [
    | inl q ↦
        let ih = unique_from unique ids ms (ground arith) d in
        (ih.0, ground arith, λ x. ih.2 x ∙ repeated m x unique ids q)
    | inr q ↦
        let ih =
          unique_from (unique ++ m ∷ []) ids ms (ground arith) (distinct-snoc m unique d q) in
        (ih.0, ground arith, λ x. ground (arith, ih.2 x, member_of-append x unique (m ∷ [])))
  ]
]

-- The members of a new group are its creator and the users that the request names: each is in the
-- list once, no other user is, and all the named ids are positive.
pub unique_members_sound :
    (creator : ℤ) (ids ms : List ℤ)
    → unique_members (creator ∷ []) ids ≡ some ms
    → (distinct ms ≡ true)
      × (all_positive ids ≡ true)
      × ((x : ℤ) → member_of x ms ≡ (member_of x (creator ∷ []) || member_of x ids))
unique_members_sound creator ids ms e = unique_from (creator ∷ []) ids ms e refl

-- The stored members are those users, the owner as such and the others as plain members.
pub group_members-roles :
    (id : Bytes) (owner : ℤ) (ms : List ℤ)
    → (map (λ m. m.user_id) (group_members id owner ms) ≡ ms)
      × All
          (λ m.
            (m.group_id ≡ id)
            × (m.role ≡ (if m.user_id == owner then codes "owner" else codes "member")))
          (group_members id owner ms)
unfolding group_members
group_members-roles id owner [] = (refl, tt)
group_members-roles id owner (m ∷ ms) =
    let (users, roles) = group_members-roles id owner ms in
    (ap (λ us. m ∷ us) users, ((refl, refl), roles))
