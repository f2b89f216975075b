-- ===== src/Tray/Link.antt =====
-- app/tray/client.go and app/tray/tray.go: how the client connects again. The loop of the menu and the
-- goroutines of `Reconnect` read the same channel of statuses; here it has room for all of them, where
-- a sender would wait. Whether the server answers within the retries is a parameter of the event.
use cells_sync.Prelude.{
  ℕ, zero, suc, ◌+◌, ◌≤◌, ◌≡◌, refl, arith, Bool, true, false, List, [], ◌∷◌, ◌++◌,
}
use cells_sync.Tray.Menu.{Menu, on_status}

pub record Link : Type 0 where
  pub status : List Bool  -- the channel: `true` is StatusConnected
  pub menu : Menu
  pub retrying : ℕ  -- goroutines of `Reconnect`
  pub opened : ℕ  -- the connections that were opened

-- What may happen next.
pub data LinkEvent : Type 0 where
  lost tick : Bool → LinkEvent
  menu_reads retry_reads : LinkEvent

abbrev opens : Link → Link
opens l = record l { status = l.status ++ (true ∷ []); opened = suc l.opened }

-- `Connect`, and whether it returned no error.
unfoldable pub connect : Bool → Link → Link × Bool
connect true l = (opens l, true)
connect false l = (l, false)

abbrev or_retry : Link × Bool → Link
or_retry (l, true) = l
or_retry (l, false) = record l { retrying = suc l.retrying }

-- `Reconnect`, up to its goroutine.
unfoldable pub reconnect : Bool → Link → Link
reconnect ok l = or_retry (connect ok l)

-- The end of `bindConn` after an error.
unfoldable pub on_lost : Bool → Link → Link
on_lost ok l = reconnect ok (record l { status = l.status ++ (false ∷ []) })

-- The ticker of a goroutine of `Reconnect`.
abbrev on_tick : ℕ → Bool → Link → Link
on_tick zero ok l = l
on_tick (suc n) ok l = (connect ok l).0

-- Such a goroutine reads the channel.
abbrev retry_gets : ℕ → List Bool → Link → Link
retry_gets zero status l = l
retry_gets (suc n) [] l = l
retry_gets (suc n) (true ∷ rest) l = record l { status = rest; retrying = n }
retry_gets (suc n) (false ∷ rest) l = record l { status = rest }

-- The loop of the menu reads the channel.
abbrev menu_gets : List Bool → Link → Link
menu_gets [] l = l
menu_gets (s ∷ rest) l = record l { status = rest; menu = on_status s l.menu }

unfoldable pub happen : LinkEvent → Link → Link
happen (lost ok) l = on_lost ok l
happen (tick ok) l = on_tick l.retrying ok l
happen menu_reads l = menu_gets l.status l
happen retry_reads l = retry_gets l.retrying l.status l

unfoldable pub happen_all : List LinkEvent → Link → Link
happen_all [] l = l
happen_all (e ∷ es) l = happen_all es (happen e l)

abbrev one_if : Bool → ℕ
one_if true = 1
one_if false = 0

-- The times that the channel says that the client is connected.
abbrev connected_in : List Bool → ℕ
connected_in [] = 0
connected_in (s ∷ rest) = one_if s + connected_in rest

abbrev none_of : ℕ → ℕ
none_of zero = 1
none_of (suc n) = 0

-- Every opened connection is told once, to the menu or to one goroutine.
abbrev Balance : Link → Type 0
Balance l = connected_in l.status + one_if l.menu.open_enabled + none_of l.retrying ≤ l.opened

connected_in-append :
    (ss : List Bool) (b : Bool) → connected_in (ss ++ (b ∷ [])) ≡ connected_in ss + one_if b
connected_in-append [] b = omega arith
connected_in-append (s ∷ ss) b = omega (arith, connected_in-append ss b)

on_lost-Balance : (ok : Bool) (l : Link) → Balance l → Balance (on_lost ok l)
unfolding on_lost reconnect connect
on_lost-Balance true l h = ground (
  arith,
  h,
  connected_in-append l.status false,
  connected_in-append (l.status ++ (false ∷ [])) true,
)
on_lost-Balance false l h = ground (arith, h, connected_in-append l.status false)

on_tick-Balance : (n : ℕ) (ok : Bool) (l : Link) → Balance l → Balance (on_tick n ok l)
unfolding connect
on_tick-Balance zero ok l h = h
on_tick-Balance (suc n) true l h = ground (arith, h, connected_in-append l.status true)
on_tick-Balance (suc n) false l h = h

retry_gets-Balance :
    (n : ℕ) (status : List Bool) (l : Link)
    → l.retrying ≡ n
    → l.status ≡ status
    → Balance l
    → Balance (retry_gets n status l)
retry_gets-Balance zero status l e e' h = h
retry_gets-Balance (suc n) [] l e e' h = h
retry_gets-Balance (suc n) (true ∷ rest) l e e' h = ground (arith, rw (e, e') at h)
retry_gets-Balance (suc n) (false ∷ rest) l e e' h = ground (arith, rw (e, e') at h)

menu_gets-Balance :
    (status : List Bool) (l : Link) → l.status ≡ status → Balance l → Balance (menu_gets status l)
unfolding on_status
menu_gets-Balance [] l e h = h
menu_gets-Balance (true ∷ rest) l e h = ground (arith, rw e at h)
menu_gets-Balance (false ∷ rest) l e h = ground (arith, rw e at h)

happen_all-Balance : (es : List LinkEvent) (l : Link) → Balance l → Balance (happen_all es l)
unfolding happen_all happen
happen_all-Balance [] l h = h
happen_all-Balance (lost ok ∷ es) l h = happen_all-Balance es _ (on_lost-Balance ok l h)
happen_all-Balance (tick ok ∷ es) l h = happen_all-Balance es _ (on_tick-Balance l.retrying ok l h)
happen_all-Balance (menu_reads ∷ es) l h =
    happen_all-Balance es _ (menu_gets-Balance l.status l refl h)
happen_all-Balance (retry_reads ∷ es) l h =
    happen_all-Balance es _ (retry_gets-Balance l.retrying l.status l refl refl h)

-- The first connection was lost, the menu has read that, and the server did not answer at once.
abbrev pub outage : Menu → Link
outage m = record {
  status = [];
  menu = record m { open_enabled = false };
  retrying = 1;
  opened = 0;
}

-- After an outage in which the server did not answer at once, whatever happens and in whatever order:
-- when the menu can open the window again and no goroutine tries to connect any more, at least two
-- connections were opened. A single one leaves the menu disabled or a goroutine that goes on.
pub outage-opened :
    (m : Menu) (es : List LinkEvent)
    → (happen_all es (outage m)).menu.open_enabled ≡ true
    → (happen_all es (outage m)).retrying ≡ 0
    → 2 ≤ (happen_all es (outage m)).opened
outage-opened m es enabled ended =
    let h = happen_all-Balance es (outage m) (omega arith) in
    omega (arith, rw (enabled, ended) at h)
