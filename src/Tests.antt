-- ===== src/Tests.antt =====
-- Runs at concrete inputs, and the theorems applied at them.
mod RangeTests
mod FileTests
mod UploadTests
mod ServedTests
mod LockTests
mod DatabaseTests
mod FsTests
mod RuntimeTests
mod ChannelTests
mod DeviceTests
mod ListTests
mod SystemTests
mod PathTests
mod RouteTests
mod ResolveTests
mod StartTests
