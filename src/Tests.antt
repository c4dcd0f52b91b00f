-- ===== src/Tests.antt =====
-- Concrete instances of what the model takes as parameters, and the theorems at concrete inputs.
pub mod Instances
mod EndpointTests
mod PacketTests
mod SerializeTests
mod StreamTests
mod DatagramTests
mod NetworkTests
mod BlockTests
mod TesterTests
mod PlanTests
mod FileTests
mod SubnormalTests
mod PacerTests
