-- ===== src/Udm/Tests.antt =====
-- A subscriber of the seed.
use pdu_session_sim.Udm.{SubscriberRepository, in_memory, new_in_memory_subscriber_repository}

abbrev seeded : SubscriberRepository
seeded = in_memory new_in_memory_subscriber_repository
