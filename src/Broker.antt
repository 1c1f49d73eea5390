-- ===== src/Broker.antt =====
-- lib/aib_broker_response.py and lib/aib_broker_security.py: the broker's wire response, and who
-- may ask it for a launch.
pub mod Response
pub mod Security
pub mod Policy
pub mod Relay
pub mod Whole
mod Witness
