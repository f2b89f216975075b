-- ===== src/Tray/Animation.antt =====
-- app/tray/icons.go: the goroutine that draws the icon. Its channel has room for one status.
pub mod Drawn
use cells_sync.Prelude.{
  ◌≡◌, refl, ◌⊎◌, inl, inr, Bool, true, false, not, Option, none, some, List, [], ◌∷◌,
  if◌then◌else◌, Bool-cases, Option-cases, ap, sym, ◌∙◌, ◌>>=◌, >>=-eq-some, arith,
}
use cells_sync.Tray.Menu.{Icon, icon_idle, icon_active, icon_error, icon_pause}

pub data Picture : Type 0 where
  plain active active_2 in_error in_pause : Picture

-- `crt` is crtStatus, `none` the empty text that it starts with.
pub record Animation : Type 0 where
  pub channel : Option Icon
  pub crt : Option Icon
  pub toggler : Bool
  pub drawn : Picture

pub data Tick : Type 0 where
  sends : Icon → Tick  -- setIconXXX
  takes : Tick
  ticks : Tick  -- 750 ms have passed

abbrev pub same_icon : Icon → Icon → Bool
same_icon icon_idle icon_idle = true
same_icon icon_active icon_active = true
same_icon icon_error icon_error = true
same_icon icon_pause icon_pause = true
same_icon _ _ = false

abbrev pub is_current : Icon → Option Icon → Bool
is_current s none = false
is_current s (some c) = same_icon c s

abbrev pub picture_of : Icon → Picture
picture_of icon_idle = plain
picture_of icon_active = active
picture_of icon_error = in_error
picture_of icon_pause = in_pause

abbrev pub toggler_after : Icon → Bool → Bool
toggler_after icon_active b = false
toggler_after icon_idle b = b
toggler_after icon_error b = b
toggler_after icon_pause b = b

-- The case of a status.
abbrev pub on_take : Icon → Animation → Animation
on_take s a = if is_current s a.crt then record a { channel = none } else record {
  channel = none;
  crt = some s;
  toggler = toggler_after s a.toggler;
  drawn = picture_of s;
}

-- The case of the timer.
abbrev pub on_timer : Animation → Animation
on_timer a =
    if is_current icon_active a.crt
    then record a { drawn = if not a.toggler then active else active_2; toggler = not a.toggler }
    else a

abbrev pub put_in : Icon → Option Icon → Animation → Option Animation
put_in s none a = some (record a { channel = some s })
put_in s (some x) a = none

abbrev pub take_out : Option Icon → Animation → Option Animation
take_out none a = none
take_out (some s) a = some (on_take s a)

-- One step; `none` where it has to wait for another one.
unfoldable pub animate : Tick → Animation → Option Animation
animate (sends s) a = put_in s a.channel a
animate takes a = take_out a.channel a
animate ticks a = some (on_timer a)

unfoldable pub animate_all : List Tick → Animation → Option Animation
animate_all [] a = some a
animate_all (e ∷ es) a = animate e a >>= λ b. animate_all es b

-- The goroutine at its start.
unfoldable pub still : Animation
still = record { channel = none; crt = none; toggler = false; drawn = plain }
