-- ===== src/Events/Emitter/Registry.antt =====
-- The registry of the emitter in packages/web-sdk/src/core/events/index.ts.
use beam_sdk_public.Common.{
  ◌≡◌, ◌≢◌, refl, true, false, ◌||◌, List, [], ◌∷◌, ◌++◌, if◌then◌else◌, arith, if_rule, Text,
  text_eq, text_eq→eq, text_eq_refl,
}
use beam_sdk_public.Events.Emitter.{
  Listener, same, has, add, delete, Entries, listeners_of, on_entries, off_entries, put_back,
}

same→eq : (a b : Listener) → same a b ≡ true → a ≡ b
unfolding same
same→eq a b h = ground arith

same_refl : (a : Listener) → same a a ≡ true
unfolding same
same_refl a = ground arith

-- The keys are distinct, every key has a listener, and none twice.
abbrev pub Absent : Text → Entries → Type 0
Absent k [] = Unit
Absent k ((j, ls) ∷ m) = (text_eq j k ≡ false) × Absent k m

abbrev pub Distinct : List Listener → Type 0
Distinct [] = Unit
Distinct (l ∷ ls) = (has l ls ≡ false) × Distinct ls

abbrev pub IsRegistry : Entries → Type 0
IsRegistry [] = Unit
IsRegistry ((k, ls) ∷ m) = (ls ≢ []) × Distinct ls × Absent k m × IsRegistry m

has-append : (l x : Listener) (xs : List Listener) → has l (xs ++ x ∷ []) ≡ (has l xs || same x l)
unfolding has
has-append l x [] = ground arith
has-append l x (y ∷ ys) = ground (arith, has-append l x ys)

-- The listeners of an event after `on`: the new one at the end, unless it is there; and no other event's.
pub listeners_of-on_entries :
    (event key : Text) (l : Listener) (m : Entries)
    → listeners_of key (on_entries event l m)
      ≡ (if text_eq event key then add l (listeners_of key m) else listeners_of key m)
unfolding listeners_of on_entries
listeners_of-on_entries event key l [] = ground arith
listeners_of-on_entries event key l ((k, ls) ∷ m) = ground (
  arith,
  text_eq→eq k event,
  text_eq→eq k key,
  text_eq→eq event key,
  text_eq_refl event,
  text_eq_refl key,
  listeners_of-on_entries event key l m,
)

Absent-none : (key : Text) (m : Entries) → Absent key m → listeners_of key m ≡ []
unfolding listeners_of
Absent-none key [] h = refl
Absent-none key ((k, ls) ∷ m) h = rw (h.0) (Absent-none key m h.1)

put_back-listeners :
    (k key : Text) (ls : List Listener) (m : Entries)
    → Absent k m
    → listeners_of key (put_back k ls m) ≡ (if text_eq k key then ls else listeners_of key m)
unfolding put_back listeners_of
put_back-listeners k key [] m h =
    ground (arith, text_eq→eq k key, Absent-none k m h, Absent-none key m)
put_back-listeners k key (x ∷ xs) m h = refl

-- The listeners of an event after `off`: one less, if it was there; and no other event's.
pub listeners_of-off_entries :
    (event key : Text) (l : Listener) (m : Entries)
    → IsRegistry m
    → listeners_of key (off_entries event l m)
      ≡ (if text_eq event key then delete l (listeners_of key m) else listeners_of key m)
unfolding off_entries listeners_of
listeners_of-off_entries event key l [] r = ground arith
listeners_of-off_entries event key l ((k, ls) ∷ m) r = ground (
  arith,
  text_eq→eq k event,
  text_eq→eq k key,
  text_eq→eq event key,
  text_eq_refl event,
  text_eq_refl key,
  put_back-listeners k key (delete l ls) m r.2,
  listeners_of-off_entries event key l m r.3,
)

snoc-Distinct :
    (l : Listener) (ls : List Listener) → has l ls ≡ false → Distinct ls → Distinct (ls ++ l ∷ [])
unfolding has
snoc-Distinct l [] h d = (refl, tt)
snoc-Distinct l (x ∷ xs) h d = (
  ground (arith, has-append x l xs, same→eq l x, same→eq x l, same_refl x),
  snoc-Distinct l xs (ground arith) d.1,
)

add-Distinct :
    (l : Listener) (ls : List Listener) → Distinct ls → (add l ls ≢ []) × Distinct (add l ls)
unfolding add has
add-Distinct l ls d =
    if_rule (λ r. (r ≢ []) × Distinct r) (has l ls) _ _ (λ h. (nonempty ls h, d))
      (λ h. (snoc-nonempty ls, snoc-Distinct l ls h d))
  where
    nonempty : (xs : List Listener) → has l xs ≡ true → xs ≢ []
    nonempty [] h = λ e. cc
    nonempty (x ∷ xs) h = λ e. cc

    snoc-nonempty : (xs : List Listener) → xs ++ l ∷ [] ≢ []
    snoc-nonempty [] e = cc
    snoc-nonempty (x ∷ xs) e = cc

delete-has : (l x : Listener) (ls : List Listener) → has x ls ≡ false → has x (delete l ls) ≡ false
unfolding delete has
delete-has l x [] h = refl
delete-has l x (y ∷ ys) h = ground (arith, delete-has l x ys)

delete-Distinct : (l : Listener) (ls : List Listener) → Distinct ls → Distinct (delete l ls)
unfolding delete
delete-Distinct l [] d = tt
delete-Distinct l (y ∷ ys) d = ground (arith, delete-Distinct l ys d.1, delete-has l y ys d.0)

on_entries-Absent :
    (event key : Text) (l : Listener) (m : Entries)
    → text_eq event key ≡ false
    → Absent key m
    → Absent key (on_entries event l m)
unfolding on_entries
on_entries-Absent event key l [] n h = (n, tt)
on_entries-Absent event key l ((k, ls) ∷ m) n h =
    ground (arith, on_entries-Absent event key l m n h.1)

off_entries-Absent :
    (event key : Text) (l : Listener) (m : Entries)
    → Absent key m
    → Absent key (off_entries event l m)
unfolding off_entries
off_entries-Absent event key l [] h = tt
off_entries-Absent event key l ((k, ls) ∷ m) h =
    ground (arith, off_entries-Absent event key l m h.1)

-- `on` keeps the registry well formed: distinct keys, and under each at least one listener, none twice.
pub on_entries-IsRegistry :
    (event : Text) (l : Listener) (m : Entries) → IsRegistry m → IsRegistry (on_entries event l m)
unfolding on_entries has
on_entries-IsRegistry event l [] r = ((λ e. cc), (refl, tt), tt, tt)
on_entries-IsRegistry event l ((k, ls) ∷ m) r =
    if_rule IsRegistry (text_eq k event) _ _
      (λ h. ((add-Distinct l ls r.1).0, (add-Distinct l ls r.1).1, r.2, r.3))
      (λ h.
        (r.0, r.1, on_entries-Absent event k l m (flip h) r.2, on_entries-IsRegistry event l m r.3))
  where
    flip : text_eq k event ≡ false → text_eq event k ≡ false
    flip h = ground (arith, text_eq→eq event k, text_eq_refl k)

put_back-IsRegistry :
    (k : Text) (ls : List Listener) (m : Entries)
    → Distinct ls
    → Absent k m
    → IsRegistry m
    → IsRegistry (put_back k ls m)
unfolding put_back
put_back-IsRegistry k [] m d a r = r
put_back-IsRegistry k (x ∷ xs) m d a r = ((λ e. cc), d, a, r)

-- A well formed registry stays so under `off`, which forgets a key with its last listener.
pub off_entries-IsRegistry :
    (event : Text) (l : Listener) (m : Entries) → IsRegistry m → IsRegistry (off_entries event l m)
unfolding off_entries
off_entries-IsRegistry event l [] r = tt
off_entries-IsRegistry event l ((k, ls) ∷ m) r =
    if_rule IsRegistry (text_eq k event) _ _
      (λ h. put_back-IsRegistry k (delete l ls) m (delete-Distinct l ls r.1) r.2 r.3)
      (λ h. (r.0, r.1, off_entries-Absent event k l m r.2, off_entries-IsRegistry event l m r.3))

pub listeners_of-Distinct :
    (key : Text) (m : Entries) → IsRegistry m → Distinct (listeners_of key m)
unfolding listeners_of
listeners_of-Distinct key [] r = tt
listeners_of-Distinct key ((k, ls) ∷ m) r =
    if_rule Distinct (text_eq k key) _ _ (λ h. r.1) (λ h. listeners_of-Distinct key m r.3)

pub delete_self : (l : Listener) (ls : List Listener) → Distinct ls → has l (delete l ls) ≡ false
unfolding delete has
delete_self l [] d = refl
delete_self l (x ∷ xs) d = ground (arith, same→eq x l, delete_self l xs d.1)

pub delete_other :
    (l x : Listener) (ls : List Listener) → same l x ≡ false → has x (delete l ls) ≡ has x ls
unfolding delete has
delete_other l x [] n = refl
delete_other l x (y ∷ ys) n =
    ground (arith, same→eq y l, same→eq y x, same_refl x, same→eq l x, delete_other l x ys n)
