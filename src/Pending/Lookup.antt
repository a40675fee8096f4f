-- ===== src/Pending/Lookup.antt =====
-- Looking up a handle in a map of connections that has been changed.
use netter.Common.{
  ℕ, ◌≡◌, refl, ap, sym, subst, ◌∙◌, true, false, [], ◌∷◌, some, ◌==◌, ==_iff, Bool-cases, inl, inr,
  if◌then◌else◌,
}
use netter.Conn.{BaseConn}
use netter.Pending.{ConnMap, find, change, erase}

pub find-here :
    (h handle : ℕ) (c : BaseConn) (rest : ConnMap)
    → (h == handle) ≡ true
    → find handle ((h, c) ∷ rest) ≡ some c
unfolding find
find-here h handle c rest e = rw e refl

pub find-there :
    (h handle : ℕ) (c : BaseConn) (rest : ConnMap)
    → (h == handle) ≡ false
    → find handle ((h, c) ∷ rest) ≡ find handle rest
unfolding find
find-there h handle c rest e = rw e refl

-- What the head of a map does to a lookup that does not see it, or to the lookup of one handle.
pub find-change :
    (handle : ℕ) (c : BaseConn) (conns : ConnMap) (old : BaseConn)
    → find handle conns ≡ some old
    → find handle (change handle c conns) ≡ some c
unfolding change
find-change handle c [] old e = absurd (unfold find in cc)
find-change handle c ((h, o) ∷ rest) old e = elim (Bool-cases (h == handle)) [
  | inl here ↦ rw here (find-here h handle c rest here)
  | inr there ↦ rw there (
      find-there h handle o (change handle c rest) there
      ∙ find-change handle c rest old (sym (find-there h handle o rest there) ∙ e))
]

pub find-cong :
    (handle h : ℕ) (c : BaseConn) (rest rest' : ConnMap)
    → find handle rest ≡ find handle rest'
    → find handle ((h, c) ∷ rest) ≡ find handle ((h, c) ∷ rest')
unfolding find
find-cong handle h c rest rest' e = ap (λ q. if h == handle then some c else q) e

pub other_head :
    (h other handle : ℕ) → (h == other) ≡ true → (other == handle) ≡ false → (h == handle) ≡ false
other_head h other handle here e =
    subst (λ k. (k == handle) ≡ false) (sym ((==_iff h other).0 here)) e

pub find-change_other :
    (handle other : ℕ) (c : BaseConn) (conns : ConnMap)
    → (other == handle) ≡ false
    → find handle (change other c conns) ≡ find handle conns
unfolding change
find-change_other handle other c [] e = refl
find-change_other handle other c ((h, o) ∷ rest) e = elim (Bool-cases (h == other)) [
  | inl here ↦ rw here (
      find-there h handle c rest (other_head h other handle here e)
      ∙ sym (find-there h handle o rest (other_head h other handle here e)))
  | inr there ↦
      rw there
        (find-cong handle h o (change other c rest) rest (find-change_other handle other c rest e))
]

pub find-erase_other :
    (handle other : ℕ) (conns : ConnMap)
    → (other == handle) ≡ false
    → find handle (erase other conns) ≡ find handle conns
unfolding erase
find-erase_other handle other [] e = refl
find-erase_other handle other ((h, o) ∷ rest) e = elim (Bool-cases (h == other)) [
  | inl here ↦ rw here (sym (find-there h handle o rest (other_head h other handle here e)))
  | inr there ↦
      rw there (find-cong handle h o (erase other rest) rest (find-erase_other handle other rest e))
]
