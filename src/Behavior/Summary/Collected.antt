-- ===== src/Behavior/Summary/Collected.antt =====
-- modules/processing/behavior.py, `Summary`: what the lists hold after all calls.
use capev.Base.{
  Bool, Bool-cases, List, [], ◌∷◌, ◌++◌, Option, none, some, ◌==◌, any, any-append, arith, false,
  true, inl, inr, ◌&&◌, ◌||◌, ◌≡◌, refl, ◌∙◌, sym, subst, if◌then◌else◌,
}
use capev.Base.Bytes.{same_bytes, same_bytes-eq, same_bytes_comm}
use capev.Behavior.Calls.{Call, Python, Text}
use capev.Behavior.Marks.{Field, Mark, index}
use capev.Behavior.Summary.{Lists, note, note_all, event_apicall, select, branches, settle, collect}

-- The list of the field has the text.
abbrev pub has : Field → Text → Lists → Bool
has f t s = any (same_bytes t) (s f)

-- The append is one of the text to the list of the field.
abbrev pub is_mark : Field → Text → Mark → Bool
is_mark f t m = index m.field == index f && same_bytes t m.name

any-snoc :
    (t x : Text) (xs : List Text)
    → any (same_bytes t) (xs ++ (x ∷ [])) ≡ (any (same_bytes t) xs || same_bytes t x)
any-snoc t x xs = any-append (same_bytes t) xs (x ∷ []) ∙ ground arith

has-note :
    (f : Field) (t : Text) (m : Mark) (s : Lists)
    → has f t (note m s) ≡ (has f t s || is_mark f t m)
unfolding note
has-note f t m s = elim (Bool-cases (any (same_bytes m.name) (s f))) [
  | inl old ↦ rw old (known (same_bytes t m.name) refl old)
  | inr new ↦ rw new (added (index m.field == index f))
]
  where
    known :
        (b : Bool)
        → same_bytes t m.name ≡ b
        → has f m.name s ≡ true
        → any
            (same_bytes t)
            (if index m.field == index f && false then s f ++ (m.name ∷ []) else s f)
          ≡ (has f t s || (index m.field == index f && b))
    known true e old =
        let present : has f t s ≡ true =
          subst (λ x. has f x s ≡ true) (sym (same_bytes-eq t m.name e)) old in
        ground arith
    known false e old = ground arith

    added :
        (b : Bool)
        → any (same_bytes t) (if b && true then s f ++ (m.name ∷ []) else s f)
          ≡ (has f t s || (b && same_bytes t m.name))
    added true = any-snoc t m.name (s f) ∙ ground arith
    added false = ground arith

has-note_all :
    (f : Field) (t : Text) (ms : List Mark) (s : Lists)
    → has f t (note_all ms s) ≡ (has f t s || any (is_mark f t) ms)
unfolding note_all
has-note_all f t [] s = ground arith
has-note_all f t (m ∷ ms) s = ground (arith, has-note f t m s, has-note_all f t ms (note m s))

-- The branch of the call appends the text to the list of the field.
abbrev pub asks : Field → Text → Option (List Mark) → Bool
asks f t none = false
asks f t (some ms) = any (is_mark f t) ms

has-settle :
    (f : Field) (t : Text) (o : Option (List Mark)) (s : Lists)
    → has f t (settle o s) ≡ (has f t s || asks f t o)
has-settle f t none s = ground arith
has-settle f t (some ms) s = has-note_all f t ms s

has-event_apicall :
    (py : Python) (f : Field) (t : Text) (call : Call) (s : Lists)
    → has f t (event_apicall py call s) ≡ (has f t s || asks f t (select (branches py call)))
unfolding event_apicall
has-event_apicall py f t call s = has-settle f t (select (branches py call)) s

-- For all calls, a list of the summary has a name afterwards exactly if it had it before or the
-- branch of some call appends that name to that list.
pub has-collect :
    (py : Python) (f : Field) (t : Text) (calls : List Call) (s : Lists)
    → has f t (collect py calls s)
      ≡ (has f t s || any (λ call. asks f t (select (branches py call))) calls)
unfolding collect
has-collect py f t [] s = ground arith
has-collect py f t (call ∷ calls) s =
    has-collect py f t calls (event_apicall py call s)
    ∙ rw (has-event_apicall py f t call s) (or_assoc (has f t s) _ _)
  where
    or_assoc : (a b c : Bool) → ((a || b) || c) ≡ (a || (b || c))
    or_assoc true b c = refl
    or_assoc false b c = refl

-- No text stands twice.
abbrev pub IsUnique : List Text → Type 0
IsUnique [] = Unit
IsUnique (x ∷ xs) = (any (same_bytes x) xs ≡ false) × IsUnique xs

IsUnique-snoc :
    (x : Text) (xs : List Text)
    → any (same_bytes x) xs ≡ false
    → IsUnique xs
    → IsUnique (xs ++ (x ∷ []))
IsUnique-snoc x [] h u = (refl, tt)
IsUnique-snoc x (y ∷ xs) h u = (
  any-snoc y x xs ∙ ground (arith, same_bytes_comm y x, u.0),
  IsUnique-snoc x xs (ground arith) u.1,
)

-- Every list of the object.
abbrev pub AllUnique : Lists → Type 0
AllUnique s = (f : Field) → IsUnique (s f)

note-AllUnique : (m : Mark) (s : Lists) → AllUnique s → AllUnique (note m s)
unfolding note
note-AllUnique m s h f = elim (Bool-cases (any (same_bytes m.name) (s f))) [
  | inl old ↦ rw old (kept (index m.field == index f))
  | inr new ↦ rw new (added (index m.field == index f) new)
]
  where
    kept : (b : Bool) → IsUnique (if b && false then s f ++ (m.name ∷ []) else s f)
    kept true = h f
    kept false = h f

    added :
        (b : Bool)
        → any (same_bytes m.name) (s f) ≡ false
        → IsUnique (if b && true then s f ++ (m.name ∷ []) else s f)
    added true new = IsUnique-snoc m.name (s f) new (h f)
    added false new = h f

note_all-AllUnique : (ms : List Mark) (s : Lists) → AllUnique s → AllUnique (note_all ms s)
unfolding note_all
note_all-AllUnique [] s h = h
note_all-AllUnique (m ∷ ms) s h = note_all-AllUnique ms (note m s) (note-AllUnique m s h)

event_apicall-AllUnique :
    (py : Python) (call : Call) (s : Lists) → AllUnique s → AllUnique (event_apicall py call s)
unfolding event_apicall
event_apicall-AllUnique py call s h = settled (select (branches py call))
  where
    settled : (o : Option (List Mark)) → AllUnique (settle o s)
    settled none = h
    settled (some ms) = note_all-AllUnique ms s h

collect-AllUnique :
    (py : Python) (calls : List Call) (s : Lists) → AllUnique s → AllUnique (collect py calls s)
unfolding collect
collect-AllUnique py [] s h = h
collect-AllUnique py (call ∷ calls) s h =
    collect-AllUnique py calls _ (event_apicall-AllUnique py call s h)
