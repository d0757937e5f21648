-- ===== src/Tests.antt =====
-- The theorems at concrete inputs, and runs of the modelled functions.
mod Codec
mod DataTests
mod ListTests
mod TableTests
mod FifoTests
mod MessageTests
mod SkeletonTests
mod StubTests
mod SerializationTests
mod SocketTests
mod NetworkTests
mod ConnectionsTests
mod StartupTests
mod ClientTests
mod ServiceTests
mod ThreadsTests
mod ShutdownTests
mod ProgramTests
