-- ===== src/Tests.antt =====
-- Tests: the theorems at concrete inputs, over a server in memory and a plain codec.
pub mod Sample
mod StorageTests
mod MuxTests
pub mod MuxServerTests
mod GatewayTests
mod CgiPoolTests
mod StatsTests
mod WorkerTests
mod RecordsTests
mod SettingTests
mod SdkTests
mod StatusTests
mod RedisTests
mod CommandsTests
mod IdsTests
mod ProcessTests
mod AdminTests
