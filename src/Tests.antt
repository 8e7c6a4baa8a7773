-- ===== src/Tests.antt =====
-- The tests and the examples.
mod Ascii
mod HexCodec
mod ParserTests
mod Fixtures
mod ParserExamples
mod ServiceExamples
mod HealthExamples
mod LoopExamples
mod StartupExamples
mod AdapterExamples
mod ListCodec
mod QuietDatabase
mod RepositoryExamples
mod StoredExamples
mod ProcessExamples
mod PublishedExamples
mod PageExamples
mod DisplayExamples
