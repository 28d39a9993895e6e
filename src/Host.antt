-- ===== src/Host.antt =====
-- class Host (include/icelander.hpp, src/host.cpp): its state and shared pointers (Refs), its list of
-- peers (Peers, Lookup, Search), the handling of one event (Events, Handled, Delivery, Balance), its
-- other calls (Calls, Creation, Connect, Broadcast) and its service thread (Thread).
pub mod Refs
pub mod Peers
pub mod Events
pub mod Calls
pub mod Lookup
pub mod Unchanged
pub mod Delivery
pub mod Handled
pub mod Unheard
pub mod Balance
pub mod Connect
pub mod Search
pub mod Broadcast
pub mod Creation
pub mod Thread
pub mod Lifetime
