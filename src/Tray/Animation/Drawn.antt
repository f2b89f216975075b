-- ===== src/Tray/Animation/Drawn.antt =====
-- app/tray/icons.go: what is drawn.
use cells_sync.Prelude.{
  ◌≡◌, refl, ap, sym, ◌∙◌, ◌⊎◌, inl, inr, Bool, true, false, not, Option, none, some, List, [], ◌∷◌,
  if◌then◌else◌, Bool-cases, >>=-eq-some, arith,
}
use mathlib.Core.Path.{subst}
use cells_sync.Tray.Menu.{Icon, icon_idle, icon_active, icon_error, icon_pause}
use cells_sync.Tray.Animation.{
  Picture, plain, active, active_2, in_error, in_pause, Animation, Tick, sends, takes, ticks,
  same_icon, picture_of, on_take, on_timer, put_in, take_out, animate, animate_all, still,
}

-- The status that was sent last, or the one before.
abbrev pub last_sent : List Tick → Option Icon → Option Icon
last_sent [] before = before
last_sent (sends s ∷ es) before = last_sent es (some s)
last_sent (takes ∷ es) before = last_sent es before
last_sent (ticks ∷ es) before = last_sent es before

-- A picture that stands for a status; the two of a running task alternate.
abbrev pub Depicts : Icon → Picture → Type 0
Depicts icon_idle p = p ≡ plain
Depicts icon_active p = (p ≡ active) ⊎ (p ≡ active_2)
Depicts icon_error p = p ≡ in_error
Depicts icon_pause p = p ≡ in_pause

abbrev pub DepictsAny : Option Icon → Picture → Type 0
DepictsAny none p = p ≡ plain
DepictsAny (some s) p = Depicts s p

-- The status that comes next: the one that waits, or else the present one.
abbrev pub due_of : Option Icon → Option Icon → Option Icon
due_of none crt = crt
due_of (some s) crt = some s

abbrev pub due : Animation → Option Icon
due a = due_of a.channel a.crt

Depicts-picture_of : (s : Icon) → Depicts s (picture_of s)
Depicts-picture_of icon_idle = refl
Depicts-picture_of icon_active = inl refl
Depicts-picture_of icon_error = refl
Depicts-picture_of icon_pause = refl

same_icon-eq : (c s : Icon) → same_icon c s ≡ true → c ≡ s
same_icon-eq icon_idle icon_idle h = refl
same_icon-eq icon_idle icon_active h = cc
same_icon-eq icon_idle icon_error h = cc
same_icon-eq icon_idle icon_pause h = cc
same_icon-eq icon_active icon_idle h = cc
same_icon-eq icon_active icon_active h = refl
same_icon-eq icon_active icon_error h = cc
same_icon-eq icon_active icon_pause h = cc
same_icon-eq icon_error icon_idle h = cc
same_icon-eq icon_error icon_active h = cc
same_icon-eq icon_error icon_error h = refl
same_icon-eq icon_error icon_pause h = cc
same_icon-eq icon_pause icon_idle h = cc
same_icon-eq icon_pause icon_active h = cc
same_icon-eq icon_pause icon_error h = cc
same_icon-eq icon_pause icon_pause h = refl

on_timer-crt : (a : Animation) → (on_timer a).crt ≡ a.crt
on_timer-crt a = ground arith

on_timer-channel : (a : Animation) → (on_timer a).channel ≡ a.channel
on_timer-channel a = ground arith

active_pictures : (b : Bool) → Depicts icon_active (if not b then active else active_2)
active_pictures true = inr refl
active_pictures false = inl refl

on_timer-Depicts :
    (a : Animation) (c : Option Icon)
    → a.crt ≡ c
    → DepictsAny c a.drawn
    → DepictsAny c (on_timer a).drawn
on_timer-Depicts a none e d = rw e (d)
on_timer-Depicts a (some icon_idle) e d = rw e (d)
on_timer-Depicts a (some icon_error) e d = rw e (d)
on_timer-Depicts a (some icon_pause) e d = rw e (d)
on_timer-Depicts a (some icon_active) e d = rw e (active_pictures a.toggler)

on_take_lem :
    (s : Icon) (a : Animation) (c : Option Icon)
    → a.crt ≡ c
    → DepictsAny c a.drawn
    → ((on_take s a).crt ≡ some s) × Depicts s (on_take s a).drawn × ((on_take s a).channel ≡ none)
on_take_lem s a none e d = rw e (refl, Depicts-picture_of s, refl)
on_take_lem s a (some c) e d = elim (Bool-cases (same_icon c s)) [
  | inl same_ ↦
      let p : c ≡ s = same_icon-eq c s same_ in
      rw (e, same_) (ap some p, subst (λ x. Depicts x a.drawn) p d, refl)
  | inr other ↦ rw (e, other) (refl, Depicts-picture_of s, refl)
]

abbrev IsDrawn : Option Icon → Animation → Type 0
IsDrawn last a = (due a ≡ last) × DepictsAny a.crt a.drawn

IsDrawn-intro :
    (b : Animation) (q c last : Option Icon)
    → b.channel ≡ q
    → b.crt ≡ c
    → due_of q c ≡ last
    → DepictsAny c b.drawn
    → IsDrawn last b
IsDrawn-intro b q c last e f l d = rw (e, f) (l, d)

-- One step keeps the picture of the present status, and the status that is due is the one sent last.
take_out-IsDrawn :
    (q last : Option Icon) (a b : Animation)
    → a.channel ≡ q
    → IsDrawn last a
    → take_out q a ≡ some b
    → IsDrawn last b
take_out-IsDrawn none last a b e d h = cc
take_out-IsDrawn (some s) last a b e d h =
    let (crt, shows, empty) = on_take_lem s a a.crt refl d.1 in
    let l : some s ≡ last = rw e at (d.0) in
    let p : on_take s a ≡ b = cc in
    IsDrawn-intro b none (some s) last (ap (λ x. x.channel) (sym p) ∙ empty)
      (ap (λ x. x.crt) (sym p) ∙ crt) l (subst (λ x. Depicts s x.drawn) p shows)

put_in-IsDrawn :
    (s : Icon) (q last : Option Icon) (a b : Animation)
    → IsDrawn last a
    → put_in s q a ≡ some b
    → IsDrawn (some s) b
put_in-IsDrawn s none last a b d h =
    let p : record a { channel = some s } ≡ b = cc in subst (IsDrawn (some s)) p (refl, d.1)
put_in-IsDrawn s (some x) last a b d h = cc

animate-IsDrawn :
    (e : Tick) (last : Option Icon) (a b : Animation)
    → IsDrawn last a
    → animate e a ≡ some b
    → IsDrawn (last_sent (e ∷ []) last) b
unfolding animate
animate-IsDrawn (sends s) last a b d h = put_in-IsDrawn s a.channel last a b d h
animate-IsDrawn takes last a b d h = take_out-IsDrawn a.channel last a b refl d h
animate-IsDrawn ticks last a b d h =
    let p : on_timer a ≡ b = cc in
    subst (IsDrawn last) p (
      IsDrawn-intro (on_timer a) a.channel a.crt last (on_timer-channel a) (on_timer-crt a) d.0
        (on_timer-Depicts a a.crt refl d.1))

animate_all-IsDrawn :
    (es : List Tick) (last : Option Icon) (a b : Animation)
    → IsDrawn last a
    → animate_all es a ≡ some b
    → IsDrawn (last_sent es last) b
unfolding animate_all
animate_all-IsDrawn [] last a b d h = let p : a ≡ b = cc in subst (IsDrawn last) p d
animate_all-IsDrawn (sends s ∷ es) last a b d h =
    let (m, e, r) = >>=-eq-some (animate (sends s) a) _ h in
    animate_all-IsDrawn es (some s) m b (animate-IsDrawn (sends s) last a m d e) r
animate_all-IsDrawn (takes ∷ es) last a b d h =
    let (m, e, r) = >>=-eq-some (animate takes a) _ h in
    animate_all-IsDrawn es last m b (animate-IsDrawn takes last a m d e) r
animate_all-IsDrawn (ticks ∷ es) last a b d h =
    let (m, e, r) = >>=-eq-some (animate ticks a) _ h in
    animate_all-IsDrawn es last m b (animate-IsDrawn ticks last a m d e) r

-- However the calls, the goroutine and the timer are interleaved: when no status waits any longer, the
-- picture stands for the status that was sent last, one of the two that alternate if that is the
-- active one, and it is the plain one if none was sent.
pub animate_all-Depicts :
    (es : List Tick) (a : Animation)
    → animate_all es still ≡ some a
    → a.channel ≡ none
    → DepictsAny (last_sent es none) a.drawn
unfolding still
animate_all-Depicts es a h empty =
    let (l, d) = animate_all-IsDrawn es none still a (refl, refl) h in
    let e : a.crt ≡ last_sent es none = rw empty at l in rw (← e) d
