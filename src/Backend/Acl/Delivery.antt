-- ===== src/Backend/Acl/Delivery.antt =====
-- The ACL packets over the life of a connection: from the host's credits to the acknowledgments.
use ch58x_hal.Base.{◌≡◌}
use ch58x_hal.Base.{List, []}
use ch58x_hal.Backend.Connection.{ActiveConnection, PendingData}
use ch58x_hal.LinkLayer.ChannelSelection.{update_map}
use ch58x_hal.LinkLayer.ChannelSelection
use ch58x_hal.Backend.Acl.Queueing.{acl_queue, IsQueue}
use ch58x_hal.Backend.Acl.Staging.{IsSending}
use ch58x_hal.LinkLayer.ChannelSelection
use ch58x_hal.Backend.Acl.Session.{Session}

-- A new connection has nothing to send.
abbrev Fresh : ActiveConnection → Type 0
Fresh c = IsQueue c × IsSending c × (◌≡◌ {A = List PendingData} (acl_queue c) [])
