-- ===== src/Main/NetworkBanner/Shown.antt =====
-- When networkStatusBanner.tsx shows which banner, and what hotspotCard.tsx says meanwhile.
use shareframe_board.Common.{
  refl, ◌≡◌, Bool, true, false, not, ◌&&◌, none, some, String, str_eq, arith,
}
use shareframe_board.ConnectionMode.{ConnectionModeState, WifiMode, connecting, connected, ap}
use shareframe_board.Network.{NetworkState}
use shareframe_board.Main.NetworkBanner.{
  HotspotAlert, being_connected, server_down, hotspot_banner, connecting_banner, server_banner,
  internet_banner, banner_of, network_status_banner, is_connect_disabled, hotspot_alert,
}

abbrev pub has_title : String → ConnectionModeState → Bool
has_title title s = elim (network_status_banner s) [ none ↦ false | some b ↦ str_eq b.title title ]

abbrev pub is_mode : WifiMode → WifiMode → Bool
is_mode ap ap = true
is_mode connecting connecting = true
is_mode connected connected = true
is_mode _ _ = false

-- Which of the four banners is shown, by the mode and the two connections.
abbrev pub HasTitles : ConnectionModeState → Type 0
HasTitles s =
    (has_title "Hotspot aktiv" s ≡ (s.loaded && is_mode s.mode ap))
    × (has_title "Verbindet …" s ≡ (s.loaded && is_mode s.mode connecting))
    × (has_title "Kein Internet" s ≡ (s.loaded && is_mode s.mode connected && not s.internet))
    × (has_title "Server nicht erreichbar" s
        ≡ (s.loaded && is_mode s.mode connected && s.internet && server_down s))

-- Nothing is shown before the mode was loaded. After that the hotspot and the search for a network are
-- shown whatever else holds; in a network, the missing internet comes before the missing server.
pub network_status_banner-HasTitles : (s : ConnectionModeState) → HasTitles s
unfolding network_status_banner banner_of hotspot_banner connecting_banner server_banner
    internet_banner server_down
network_status_banner-HasTitles s =
    go s.loaded s.mode s.internet (server_down s) refl refl refl refl
  where
    go :
        (l : Bool) (m : WifiMode) (i d : Bool)
        → s.loaded ≡ l
        → s.mode ≡ m
        → s.internet ≡ i
        → server_down s ≡ d
        → HasTitles s
    go false m i d hl hm hi hd = rw hl (refl, refl, refl, refl)
    go true ap i d hl hm hi hd = rw (hl, hm) (refl, refl, refl, refl)
    go true connecting i d hl hm hi hd = rw (hl, hm) (refl, refl, refl, refl)
    go true connected false d hl hm hi hd = rw (hl, hm, hi) (refl, refl, refl, refl)
    go true connected true false hl hm hi hd = rw (hl, hm, hi, hd) (refl, refl, refl, refl)
    go true connected true true hl hm hi hd = rw (hl, hm, hi, hd) (refl, refl, refl, refl)

abbrev pub tells_of_connecting : HotspotAlert → Bool
tells_of_connecting (being_connected address) = true
tells_of_connecting _ = false

-- While the card says that the board is connecting, it cannot be asked to connect once more.
pub is_connect_disabled-hotspot_alert :
    (is_connected : Bool) (n : NetworkState) (m : ConnectionModeState)
    → tells_of_connecting (hotspot_alert n m) ≡ true
    → is_connect_disabled is_connected n m ≡ true
unfolding hotspot_alert is_connect_disabled
is_connect_disabled-hotspot_alert is_connected n m h = ground arith
