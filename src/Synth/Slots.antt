-- ===== src/Synth/Slots.antt =====
-- The handlers that share a limiter, as interleavings. Each acquires a slot once, and releases it
-- once (by `defer`) if and only if the acquisition succeeded.
use tts_platform.Common.{
  ℕ, zero, suc, ◌+◌, ◌-◌, ◌≤◌, ◌<◌, ◌≡◌, refl, Bool, Option, none, some, List, [], ◌∷◌, get_elem?,
  set, arith, ltb, if◌then◌else◌,
}
use tts_platform.Common.Int.{ℤ}
use tts_platform.Common.Results.{Error, ok, err}
use tts_platform.Synth.Limiter.{Limiter, new, send, receive, select, acquire, release}

-- Where a handler is: before its acquisition, with a slot, or past its last call.
pub data Phase : Type 0 where
  before : Phase
  holding : Phase
  past : Phase

pub record System : Type 0 where
  pub limiter : Limiter
  pub handlers : List Phase

abbrev pub slot : Phase → ℕ
slot before = 0
slot holding = 1
slot past = 0

-- How many handlers hold a slot.
abbrev pub slots : List Phase → ℕ
slots [] = 0
slots (p ∷ ps) = slot p + slots ps

pub data Step (s : System) : System → Type 0 where
  admit :
      (i : ℕ) (pick : Bool) (ended : Option Error) (l : Limiter)
      → get_elem? s.handlers i ≡ some before
      → acquire pick ended (some s.limiter) ≡ some (ok tt, some l)
      → Step s (record { limiter = l; handlers = set s.handlers i holding })
  refuse :
      (i : ℕ) (pick : Bool) (ended : Option Error) (e : Error) (l : Limiter)
      → get_elem? s.handlers i ≡ some before
      → acquire pick ended (some s.limiter) ≡ some (err e, some l)
      → Step s (record { limiter = l; handlers = set s.handlers i past })
  leave :
      (i : ℕ) (l : Limiter)
      → get_elem? s.handlers i ≡ some holding
      → release (some s.limiter) ≡ some (some l)
      → Step s (record { limiter = l; handlers = set s.handlers i past })
  arrive : Step s (record s { handlers = before ∷ s.handlers })

pub data Reach (s : System) : System → Type 0 where
  here : Reach s s
  next : {t u : System} → Reach s t → Step t u → Reach s u

slots-set :
    (ps : List Phase) (i : ℕ) (p q : Phase)
    → get_elem? ps i ≡ some p
    → slots (set ps i q) + slot p ≡ slots ps + slot q
slots-set [] i p q h = cc
slots-set (r ∷ ps) zero p q h = let e : r ≡ p = cc h in rw e (omega arith)
slots-set (r ∷ ps) (suc i) p q h = omega (arith, slots-set ps i p q h)

pub record Inv (cap : ℕ) (s : System) : Type 0 where
  pub same_cap : s.limiter.cap ≡ cap
  pub counted : s.limiter.held ≡ slots s.handlers
  pub bounded : s.limiter.held ≤ cap

acquire-ok :
    (pick : Bool) (ended : Option Error) (l l' : Limiter)
    → acquire pick ended (some l) ≡ some (ok tt, some l')
    → (l'.cap ≡ l.cap) × (l'.held ≡ suc l.held) × (l.held < l.cap)
unfolding acquire
acquire-ok pick ended l l' h = ground arith

acquire-err :
    (pick : Bool) (ended : Option Error) (e : Error) (l l' : Limiter)
    → acquire pick ended (some l) ≡ some (err e, some l')
    → l' ≡ l
unfolding acquire
acquire-err pick ended e l l' h = ground arith

pub acquire-release :
    (pick : Bool) (ended : Option Error) (l : Limiter) (k : Option Limiter)
    → acquire pick ended (some l) ≡ some (ok tt, k)
    → release k ≡ some (some l)
unfolding acquire release select send receive
acquire-release pick ended l k h = ground arith

pub acquire-refused :
    (pick : Bool) (ended : Option Error) (e : Error) (l : Limiter) (k : Option Limiter)
    → acquire pick ended (some l) ≡ some (err e, k)
    → k ≡ some l
unfolding acquire release select send
acquire-refused pick ended e l k h = ground arith

release-some :
    (l l' : Limiter) → release (some l) ≡ some (some l') → (l'.cap ≡ l.cap) × (suc l'.held ≡ l.held)
unfolding release
release-some l l' h = ground arith

Step-Inv : {cap : ℕ} {s t : System} → Step s t → Inv cap s → Inv cap t
Step-Inv {s = s} (admit i pick ended l at h) v =
    ground (arith, acquire-ok pick ended s.limiter l h, slots-set s.handlers i before holding at)
Step-Inv {s = s} (refuse i pick ended e l at h) v =
    ground (arith, acquire-err pick ended e s.limiter l h, slots-set s.handlers i before past at)
Step-Inv {s = s} (leave i l at h) v =
    ground (arith, release-some s.limiter l h, slots-set s.handlers i holding past at)
Step-Inv arrive v = ground arith

Reach-Inv : {cap : ℕ} {s t : System} → Inv cap s → Reach s t → Inv cap t
Reach-Inv v here = v
Reach-Inv v (next r st) = Step-Inv st (Reach-Inv v r)

-- No handler has come yet.
unfoldable pub start : ℤ → System
start max = record { limiter = new max; handlers = [] }

start-Inv : (max : ℤ) → Inv (new max).cap (start max)
unfolding start new
start-Inv max = record { same_cap = refl; counted = refl; bounded = omega arith }

holder-counts : (ps : List Phase) (i : ℕ) → get_elem? ps i ≡ some holding → 0 < slots ps
holder-counts [] i h = cc
holder-counts (p ∷ ps) zero h = let e : p ≡ holding = cc h in rw e (omega arith)
holder-counts (p ∷ ps) (suc i) h = omega (arith, holder-counts ps i h)

-- However handlers come, are admitted, are refused and leave, no more hold a slot than the limiter
-- was made for (which is at least one), and its buffer holds one value for each of them.
pub start-Reach-slots :
    (max : ℤ) (s : System)
    → Reach (start max) s
    → (slots s.handlers ≤ (new max).cap) × (0 < (new max).cap) × (s.limiter.held ≡ slots s.handlers)
unfolding new
start-Reach-slots max s r =
    let v = Reach-Inv (start-Inv max) r in
    (omega (arith, v.counted, v.bounded), ground arith, v.counted)

-- In every state that handlers reach, the `Release` of one that holds a slot never blocks.
pub holder-release :
    (max : ℤ) (s : System) (i : ℕ)
    → Reach (start max) s
    → get_elem? s.handlers i ≡ some holding
    → (l : Limiter) × (release (some s.limiter) ≡ some (some l))
unfolding release
holder-release max s i r h =
    let v = Reach-Inv (start-Inv max) r in
    (
      record s.limiter { held = s.limiter.held - 1 },
      ground (arith, v.counted, holder-counts s.handlers i h),
    )

-- In every state that handlers reach, an `Acquire` whose context is not done returns at once with a
-- slot if and only if fewer handlers hold one than the limiter was made for; else it blocks.
acquire-blocks :
    (max : ℤ) (s : System) (pick : Bool)
    → Reach (start max) s
    → acquire pick none (some s.limiter) ≡ (
        if ltb (slots s.handlers) (new max).cap
        then some (ok tt, some (record s.limiter { held = suc (slots s.handlers) }))
        else none)
unfolding acquire
acquire-blocks max s pick r =
    let v = Reach-Inv (start-Inv max) r in ground (arith, v.counted, v.same_cap)
